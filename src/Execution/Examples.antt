-- ===== src/Execution/Examples.antt =====
-- A run that fails after its payload, and a second one that reports a result.
use a2a_broker.Prelude.{◌≤◌, ◌≡◌, refl, true, List, [], ◌∷◌, none, some}
use a2a_broker.Prelude.Dict
use a2a_broker.EventBuffer
use a2a_broker.Execution.Types.{
  RunState, session_ready, result_reported, ResultArtifact, success, runtime_error,
  resolve_failure_code,
}
use a2a_broker.Execution.Manager
use a2a_broker.Execution.Manager.{RequestInput, new}
use a2a_broker.Execution.Moves.{
  Call, requests, readies, delivers, starts, fails, retries, reports, cancels, call, step, run,
  AreFresh,
}
use a2a_broker.Execution.Invariant.{IsValid, run-executions-IsValid}
use a2a_broker.Execution.Finality.{run-result_final, run-ready_again_stuck, CannotRun}
use a2a_broker.Execution.Payloads.{payloads, run-one_payload}

abbrev input : RequestInput
input = record {
  session_key = "session";
  peer_node_id = "node";
  parent_task_id = some "task";
  wake_event_id = some 4;
}

abbrev result : ResultArtifact
result = record { outcome = success; summary = "done"; artifact_ids = none; error_code = none }

-- The first run fails, and its session is ready again.
abbrev reopening : List Call
reopening =
    record { operation = requests input "r-1"; now = 1; emitted = 1 }
    ∷ record { operation = readies "r-1" (some "soon"); now = 2; emitted = 2 }
    ∷ record { operation = delivers "r-1" none; now = 3; emitted = 3 }
    ∷ record { operation = starts "r-1"; now = 4; emitted = 4 }
    ∷ record { operation = fails "r-1" "runtime"; now = 5; emitted = 5 }
    ∷ record { operation = readies "r-1" none; now = 6; emitted = 6 }
    ∷ []

-- The first run fails, and the second one reports.
abbrev retrying : List Call
retrying =
    record { operation = requests input "r-1"; now = 1; emitted = 1 }
    ∷ record { operation = readies "r-1" (some "soon"); now = 2; emitted = 2 }
    ∷ record { operation = delivers "r-1" none; now = 3; emitted = 3 }
    ∷ record { operation = starts "r-1"; now = 4; emitted = 4 }
    ∷ record { operation = fails "r-1" "runtime"; now = 5; emitted = 5 }
    ∷ record { operation = retries "r-1" "r-2"; now = 6; emitted = 6 }
    ∷ record { operation = readies "r-2" none; now = 7; emitted = 7 }
    ∷ record { operation = delivers "r-2" none; now = 8; emitted = 8 }
    ∷ record { operation = delivers "r-2" none; now = 9; emitted = 9 }
    ∷ record { operation = starts "r-2"; now = 10; emitted = 10 }
    ∷ record { operation = reports "r-2" result; now = 11; emitted = 11 }
    ∷ []

abbrev reopened : RunState
reopened = record {
  run_id = "r-1";
  session_key = "session";
  peer_node_id = "node";
  parent_task_id = some "task";
  status = session_ready;
  failure_code = some runtime_error;
  result = none;
  lease_deadline = none;
  wake_event_id = some 4;
  created_at = 1;
  updated_at = 6;
  payload_delivered_at = some 3;
  started_at = some 4;
  completed_at = some 5;
  attempts = 1;
  payload_delivered = true;
}

abbrev reported : RunState
reported = record {
  run_id = "r-2";
  session_key = "session";
  peer_node_id = "node";
  parent_task_id = some "task";
  status = result_reported;
  failure_code = none;
  result = some result;
  lease_deadline = none;
  wake_event_id = some 4;
  created_at = 6;
  updated_at = 11;
  payload_delivered_at = some 8;
  started_at = some 10;
  completed_at = some 11;
  attempts = 2;
  payload_delivered = true;
}

retrying-AreFresh : AreFresh (new none) retrying
unfolding new run step call Manager.request_execution Manager.begin_run Manager.mark_ready
    Manager.deliver_payload Manager.start_running Manager.report_result Manager.fail_execution
    Manager.timeout_execution Manager.cancel_execution Manager.retry_execution Manager.transition
    Manager.require_run Manager.emit_event resolve_failure_code Dict.get Dict.set EventBuffer.new
    EventBuffer.emit EventBuffer.push EventBuffer.allocate_id EventBuffer.trim
retrying-AreFresh = (refl, (tt, (tt, (tt, (tt, (refl, (tt, (tt, (tt, (tt, (tt, tt)))))))))))

reopens : Dict.get (run (new none) reopening).runs "r-1" ≡ some reopened
unfolding new run step call Manager.request_execution Manager.begin_run Manager.mark_ready
    Manager.deliver_payload Manager.start_running Manager.report_result Manager.fail_execution
    Manager.timeout_execution Manager.cancel_execution Manager.retry_execution Manager.transition
    Manager.require_run Manager.emit_event resolve_failure_code Dict.get Dict.set EventBuffer.new
    EventBuffer.emit EventBuffer.push EventBuffer.allocate_id EventBuffer.trim
reopens = refl

reports_result : Dict.get (run (new none) retrying).runs "r-2" ≡ some reported
unfolding new run step call Manager.request_execution Manager.begin_run Manager.mark_ready
    Manager.deliver_payload Manager.start_running Manager.report_result Manager.fail_execution
    Manager.timeout_execution Manager.cancel_execution Manager.retry_execution Manager.transition
    Manager.require_run Manager.emit_event resolve_failure_code Dict.get Dict.set EventBuffer.new
    EventBuffer.emit EventBuffer.push EventBuffer.allocate_id EventBuffer.trim
reports_result = refl

run-executions-IsValid_example : IsValid (run (new none) retrying)
run-executions-IsValid_example = run-executions-IsValid none retrying

run-one_payload_example : payloads "r-2" (new none) retrying ≤ 1
run-one_payload_example = run-one_payload none retrying "r-2" retrying-AreFresh

abbrev later : List Call
later =
    record { operation = delivers "r-1" none; now = 20; emitted = 20 }
    ∷ record { operation = starts "r-1"; now = 21; emitted = 21 }
    ∷ record { operation = cancels "r-2"; now = 22; emitted = 22 }
    ∷ []

run-result_final_example : Dict.get (run (run (new none) retrying) later).runs "r-2" ≡ some reported
run-result_final_example =
    run-result_final (run (new none) retrying) later "r-2" reported
      (run-executions-IsValid none retrying) (tt, (tt, (tt, tt))) refl reports_result

run-ready_again_stuck_example :
    (s : RunState) × CannotRun (run (run (new none) reopening) later) "r-1" s
run-ready_again_stuck_example =
    run-ready_again_stuck (run (new none) reopening) later "r-1" reopened
      (run-executions-IsValid none reopening) (tt, (tt, (tt, tt))) refl refl reopens
