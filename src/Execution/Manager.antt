-- ===== src/Execution/Manager.antt =====
-- src/core/execution-lifecycle.ts, `ExecutionManager`. A run is changed in place, so each change is
-- written back under its id. The clock and the id factory are arguments of the calls.
use a2a_broker.Prelude.{
  ℕ, ◌+◌, String, Bool, true, false, not, [], Option, none, some, or_else, truthy, leb,
  if◌then◌else◌,
}
use a2a_broker.Prelude.Integers.{ℤ, difference}
use a2a_broker.Prelude.Dict
use a2a_broker.Prelude.Dict.{Dict}
use a2a_broker.Prelude.Exec.{Exec, pure, modify, throw_if, or_raise, ◌>>=◌, ◌>>◌}
use a2a_broker.EventBuffer
use a2a_broker.EventBuffer.{CursorEventBuffer}
use a2a_broker.Execution.Types.{
  RunState, ExecutionStatus, wake_requested, session_ready, payload_delivered, running,
  result_reported, failed, timeout, cancelled, transitions, FailureCode, execution_timeout,
  cancelled_by_operator, resolve_failure_code, ResultOutcome, ResultArtifact, EventKind,
  exec_wake_requested, status_to_event_kind, Metadata, ExecutionEvent,
}

pub record Manager : Type 0 where
  pub runs : Dict RunState
  pub buffer : CursorEventBuffer ExecutionEvent

-- `ExecutionError.code`
pub data ExecutionError : Type 0 where
  not_found invalid_transition invalid_retry : ExecutionError

pub record RequestInput : Type 0 where
  pub session_key : String
  pub peer_node_id : String
  pub parent_task_id : Option String
  pub wake_event_id : Option ℕ

abbrev pub Action : Type 0 → Type 0
Action = Exec Manager ExecutionError

-- `maxEvents` 0 or absent means 500.
unfoldable pub new : Option ℕ → Manager
unfolding EventBuffer.new
new max_events = record {
  runs = [];
  buffer = EventBuffer.new (if leb (or_else max_events 0) 0 then 500 else or_else max_events 0);
}

unfoldable pub emit_event : String → RunState → EventKind → Metadata → ℕ → Manager → Manager
emit_event id r kind metadata now m = record m {
  buffer = EventBuffer.emit m.buffer (λ event_id. record {
    id = event_id;
    timestamp = now;
    run_id = id;
    session_key = r.session_key;
    peer_node_id = r.peer_node_id;
    parent_task_id = r.parent_task_id;
    kind = kind;
    metadata = metadata;
  });
}

abbrev pub save : String → RunState → Manager → Manager
save id r m = record m { runs = Dict.set m.runs id r }

unfoldable pub get_run : Manager → String → Option RunState
get_run m id = Dict.get m.runs id

abbrev pub fresh_run : RequestInput → String → ℕ → ℕ → RunState
fresh_run input id attempts now = record {
  run_id = id;
  session_key = input.session_key;
  peer_node_id = input.peer_node_id;
  parent_task_id = input.parent_task_id;
  status = wake_requested;
  failure_code = none;
  result = none;
  lease_deadline = none;
  wake_event_id = input.wake_event_id;
  created_at = now;
  updated_at = now;
  payload_delivered_at = none;
  started_at = none;
  completed_at = none;
  attempts = attempts;
  payload_delivered = false;
}

abbrev pub wake_metadata : Option ℕ → Metadata
wake_metadata wake_event_id = record {
  failure_code = none;
  lease_deadline = none;
  outcome = none;
  execution_duration_ms = none;
  wake_event_id = wake_event_id;
}

-- The new run and its event, which `requestExecution` and `retryExecution` write alike.
unfoldable pub begin_run : RequestInput → String → ℕ → ℕ → ℕ → Action RunState
unfolding emit_event
begin_run input id attempts now emitted = do
  let r : RunState = fresh_run input id attempts now
  modify (save id r)
  modify (emit_event id r exec_wake_requested (wake_metadata input.wake_event_id) emitted)
  pure r

-- The id is the one that the factory gives.
unfoldable pub request_execution : RequestInput → String → ℕ → ℕ → Action RunState
unfolding begin_run
request_execution input id = begin_run input id 1

unfoldable pub require_run : String → Action RunState
require_run id m = or_raise (Dict.get m.runs id) not_found m

abbrev pub execution_duration : Option ℕ → Option ℕ → Option ℤ
execution_duration none completed_at = none
execution_duration (some payload_delivered_at) none = none
execution_duration (some payload_delivered_at) (some completed_at) =
    some (difference completed_at payload_delivered_at)

-- What a transition adds to its event: `extraMeta`, and the failure code.
pub record Extra : Type 0 where
  pub lease_deadline : Option String
  pub outcome : Option ResultOutcome
  pub failure_code : Option FailureCode

abbrev pub no_extra : Extra
no_extra = record { lease_deadline = none; outcome = none; failure_code = none }

abbrev pub metadata_of : RunState → Extra → Metadata
metadata_of r extra = record {
  failure_code = extra.failure_code;
  lease_deadline = if truthy extra.lease_deadline then extra.lease_deadline else none;
  outcome = extra.outcome;
  execution_duration_ms = execution_duration r.payload_delivered_at r.completed_at;
  wake_event_id = none;
}

abbrev pub moved : RunState → ExecutionStatus → ℕ → RunState
moved r target now = record r { status = target; updated_at = now }

unfoldable pub transition :
    String → ExecutionStatus → (RunState → RunState) → Extra → ℕ → ℕ → Action RunState
unfolding require_run emit_event
transition id target apply extra now emitted = do
  r ← require_run id
  throw_if (not (transitions r.status target)) invalid_transition
  let r' = apply (moved r target now)
  modify (save id r')
  modify (emit_event id r' (status_to_event_kind target) (metadata_of r' extra) emitted)
  pure r'

abbrev pub ready_fields : Option String → RunState → RunState
ready_fields deadline r = record r { lease_deadline = deadline }

unfoldable pub mark_ready : String → Option String → ℕ → ℕ → Action RunState
mark_ready id deadline =
    transition id session_ready (ready_fields deadline)
      (record no_extra { lease_deadline = deadline })

abbrev pub payload_fields : Option String → RunState → RunState
payload_fields deadline r = record r {
  payload_delivered = true;
  payload_delivered_at = some r.updated_at;
  lease_deadline = if truthy deadline then deadline else r.lease_deadline;
}

unfoldable pub deliver_payload : String → Option String → ℕ → ℕ → Action RunState
unfolding require_run
deliver_payload id deadline now emitted = do
  r ← require_run id
  if r.payload_delivered
      then pure r
      else transition id payload_delivered (payload_fields deadline) no_extra now emitted

abbrev pub running_fields : RunState → RunState
running_fields r = record r { started_at = some r.updated_at }

unfoldable pub start_running : String → ℕ → ℕ → Action RunState
start_running id = transition id running running_fields no_extra

abbrev pub result_fields : ResultArtifact → RunState → RunState
result_fields result r = record r { result = some result; completed_at = some r.updated_at }

unfoldable pub report_result : String → ResultArtifact → ℕ → ℕ → Action RunState
report_result id result =
    transition id result_reported (result_fields result)
      (record no_extra { outcome = some result.outcome })

abbrev pub end_fields : FailureCode → RunState → RunState
end_fields code r = record r { failure_code = some code; completed_at = some r.updated_at }

-- `failExecution`, `timeoutExecution` and `cancelExecution` end a run with a code.
abbrev pub end_run : String → ExecutionStatus → FailureCode → ℕ → ℕ → Action RunState
end_run id target code =
    transition id target (end_fields code) (record no_extra { failure_code = some code })

unfoldable pub fail_execution : String → String → ℕ → ℕ → Action RunState
fail_execution id reason = end_run id failed (resolve_failure_code reason)

unfoldable pub timeout_execution : String → ℕ → ℕ → Action RunState
timeout_execution id = end_run id timeout execution_timeout

unfoldable pub cancel_execution : String → ℕ → ℕ → Action RunState
cancel_execution id = end_run id cancelled cancelled_by_operator

abbrev pub may_retry : ExecutionStatus → Bool
may_retry failed = true
may_retry timeout = true
may_retry _ = false

abbrev pub request_of : RunState → RequestInput
request_of r = record {
  session_key = r.session_key;
  peer_node_id = r.peer_node_id;
  parent_task_id = r.parent_task_id;
  wake_event_id = r.wake_event_id;
}

-- `retryExecution`; the new id is the one that the factory gives.
unfoldable pub retry_execution : String → String → ℕ → ℕ → Action RunState
unfolding require_run begin_run
retry_execution id new_id now emitted = do
  existing ← require_run id
  throw_if (not (may_retry existing.status)) invalid_retry
  begin_run (request_of existing) new_id (existing.attempts + 1) now emitted
