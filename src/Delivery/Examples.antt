-- ===== src/Delivery/Examples.antt =====
-- One delivery that is sent, fails, is retried, sent again and acknowledged.
use a2a_broker.Prelude.{
  ℕ, ◌≤◌, max, ◌≡◌, refl, String, true, false, List, [], ◌∷◌, Option, none, some, if◌then◌else◌,
  ◌==◌, inl,
}
use a2a_broker.Prelude.Dict
use a2a_broker.Prelude.Exec.{ok}
use mathlib.Core.List.{Memᴰ}
use a2a_broker.EventBuffer
use a2a_broker.Delivery.Types.{
  DeliveryState, DeliveryArtifact, success, acked, resolve_failure_code, delivering, timed_out,
}
use a2a_broker.Delivery.Manager
use a2a_broker.Delivery.Manager.{RegisterInput, new, register_delivery, timeout_delivery}
use a2a_broker.Delivery.Queries.{find_delivery_timeouts}
use a2a_broker.Delivery.Moves.{
  Call, registers, queues, starts, fails, retries, delivers, acknowledges, call, step, run,
  AreFresh,
}
use a2a_broker.Delivery.Validity.{IsValid}
use a2a_broker.Delivery.Invariant.{run-deliveries-IsValid}
use a2a_broker.Delivery.Sends.{sends, run-sends_bounded}
use a2a_broker.Delivery.Runs.{IsSettled, register_delivery-again, run-acked_final}
use a2a_broker.Delivery.Deadlines.{find_timeouts-succeed}

abbrev artifact : DeliveryArtifact
artifact = record {
  run_id = "run-1";
  outcome = success;
  summary = "done";
  artifact_ids = none;
  execution_error_code = none;
}

abbrev input : RegisterInput
input = record {
  run_id = "run-1";
  originator_session_key = "session";
  originator_node_id = "hub";
  parent_task_id = some "task";
  artifact = artifact;
  delivery_deadline = some "soon";
  ack_deadline = none;
  channel = none;
  max_retries = none;
}

abbrev before : DeliveryState
before = record {
  delivery_id = "d-1";
  run_id = "run-1";
  originator_session_key = "session";
  originator_node_id = "hub";
  parent_task_id = some "task";
  status = delivering;
  artifact = artifact;
  failure_code = none;
  attempt = 1;
  max_retries = 3;
  delivery_deadline = some "soon";
  ack_deadline = none;
  channel = none;
  acknowledged = false;
  duplicate_suppressed = false;
  created_at = 1;
  updated_at = 3;
  delivery_started_at = some 3;
  delivered_at = none;
  acked_at = none;
  completed_at = none;
}

abbrev after : DeliveryState
after = record before {
  status = acked;
  attempt = 2;
  ack_deadline = some "later";
  channel = some "push";
  acknowledged = true;
  duplicate_suppressed = true;
  updated_at = 9;
  delivery_started_at = some 7;
  delivered_at = some 8;
  acked_at = some 9;
  completed_at = some 9;
}

abbrev sending : List Call
sending =
    record { operation = registers input "d-1"; now = 1; emitted = 1 }
    ∷ record { operation = queues "d-1"; now = 2; emitted = 2 }
    ∷ record { operation = starts "d-1" none; now = 3; emitted = 3 }
    ∷ []

abbrev calls : List Call
calls =
    record { operation = registers input "d-1"; now = 1; emitted = 1 }
    ∷ record { operation = queues "d-1"; now = 2; emitted = 2 }
    ∷ record { operation = starts "d-1" none; now = 3; emitted = 3 }
    ∷ record { operation = fails "d-1" "unreachable"; now = 4; emitted = 4 }
    ∷ record { operation = retries "d-1"; now = 5; emitted = 5 }
    ∷ record { operation = queues "d-1"; now = 6; emitted = 6 }
    ∷ record { operation = starts "d-1" (some "push"); now = 7; emitted = 7 }
    ∷ record { operation = delivers "d-1" (some "later"); now = 8; emitted = 8 }
    ∷ record { operation = acknowledges "d-1"; now = 9; emitted = 9 }
    ∷ record { operation = registers input "d-2"; now = 10; emitted = 10 }
    ∷ []

calls-AreFresh : AreFresh (new none none) calls
unfolding new run step call register_delivery Manager.register_new Manager.suppress_duplicate
    Manager.existing_id Manager.transition Manager.require_delivery Manager.start_delivery
    Manager.queue_delivery Manager.fail_delivery Manager.retry_delivery Manager.mark_delivered
    Manager.acknowledge_delivery Manager.emit_event resolve_failure_code Dict.get Dict.set
    EventBuffer.new EventBuffer.emit EventBuffer.push EventBuffer.allocate_id EventBuffer.trim
calls-AreFresh =
    (((λ e. cc), refl), (tt, (tt, (tt, (tt, (tt, (tt, (tt, (tt, (((λ e. cc), refl), tt))))))))))

sending-AreFresh : AreFresh (new none none) sending
unfolding new Dict.get
sending-AreFresh = (((λ e. cc), refl), (tt, (tt, tt)))

abbrev manager : List Call → Manager.Manager
manager = run (new none none)

sent_once : Dict.get (manager sending).deliveries "d-1" ≡ some before
unfolding new run step call register_delivery Manager.register_new Manager.suppress_duplicate
    Manager.existing_id Manager.transition Manager.require_delivery Manager.start_delivery
    Manager.queue_delivery Manager.fail_delivery Manager.retry_delivery Manager.mark_delivered
    Manager.acknowledge_delivery Manager.emit_event resolve_failure_code Dict.get Dict.set
    EventBuffer.new EventBuffer.emit EventBuffer.push EventBuffer.allocate_id EventBuffer.trim
sent_once = refl

acknowledged : Dict.get (manager calls).deliveries "d-1" ≡ some after
unfolding new run step call register_delivery Manager.register_new Manager.suppress_duplicate
    Manager.existing_id Manager.transition Manager.require_delivery Manager.start_delivery
    Manager.queue_delivery Manager.fail_delivery Manager.retry_delivery Manager.mark_delivered
    Manager.acknowledge_delivery Manager.emit_event resolve_failure_code Dict.get Dict.set
    EventBuffer.new EventBuffer.emit EventBuffer.push EventBuffer.allocate_id EventBuffer.trim
acknowledged = refl

sending-IsValid : IsValid (manager sending)
sending-IsValid = run-deliveries-IsValid none none sending sending-AreFresh

calls-IsValid : IsValid (manager calls)
calls-IsValid = run-deliveries-IsValid none none calls calls-AreFresh

run-deliveries-IsValid_example : IsValid (run (new none none) calls)
run-deliveries-IsValid_example = run-deliveries-IsValid none none calls calls-AreFresh

run-sends_bounded_example : sends "d-1" (new none none) calls ≤ max 1 3
run-sends_bounded_example =
    run-sends_bounded none none calls "d-1" after calls-AreFresh acknowledged

register_delivery-again_example :
    let again : DeliveryState = record before { duplicate_suppressed = true } in
    register_delivery input "d-9" 5 5 (manager sending) ≡ (
      ok again,
      record (manager sending) { deliveries = Dict.set (manager sending).deliveries "d-1" again },
    )
register_delivery-again_example =
    register_delivery-again (manager sending) "d-1" before input "d-9" 5 5 sending-IsValid sent_once
      refl

run-acked_final_example : IsSettled after (
    Dict.get
      (run
        (manager calls)
        (record { operation = retries "d-1"; now = 20; emitted = 20 } ∷ [])).deliveries
      "d-1")
run-acked_final_example =
    run-acked_final (manager calls)
      (record { operation = retries "d-1"; now = 20; emitted = 20 } ∷ []) "d-1" after calls-IsValid
      (tt, tt) refl acknowledged

-- A calendar that reads two texts.
abbrev parse_date : String → Option ℕ
parse_date text = if text == "soon" then some 10 else if text == "later" then some 20 else none

sending_late : Memᴰ "d-1" (find_delivery_timeouts parse_date (manager sending) 11)
unfolding new run step call register_delivery Manager.register_new Manager.suppress_duplicate
    Manager.existing_id Manager.transition Manager.require_delivery Manager.start_delivery
    Manager.queue_delivery Manager.fail_delivery Manager.retry_delivery Manager.mark_delivered
    Manager.acknowledge_delivery Manager.emit_event resolve_failure_code Dict.get Dict.set
    EventBuffer.new EventBuffer.emit EventBuffer.push EventBuffer.allocate_id EventBuffer.trim
    find_delivery_timeouts
sending_late = Memᴰ.head refl

find_timeouts-succeed_example :
    (e : DeliveryState) × ((timeout_delivery "d-1" none 12 12 (manager sending)).0 ≡ ok e)
    × (e.status ≡ timed_out)
    × (Dict.get (timeout_delivery "d-1" none 12 12 (manager sending)).1.deliveries "d-1" ≡ some e)
find_timeouts-succeed_example =
    find_timeouts-succeed parse_date (manager sending) "d-1" none 11 12 12 sending-IsValid
      (inl sending_late)
