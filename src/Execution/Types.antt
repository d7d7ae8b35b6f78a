-- ===== src/Execution/Types.antt =====
-- src/core/execution-lifecycle-types.ts, with the alias table of src/core/execution-lifecycle.ts. A time that
-- the manager reads from its clock is a number of milliseconds; a deadline is the text of the caller.
use a2a_broker.Prelude.{ℕ, String, Bool, true, false, List, Option, ◌==◌, ◌||◌, if◌then◌else◌}
use a2a_broker.Prelude.Integers.{ℤ}

pub data ExecutionStatus : Type 0 where
  wake_requested session_ready payload_delivered running : ExecutionStatus
  result_reported failed timeout cancelled : ExecutionStatus

-- `EXECUTION_TRANSITIONS[from].has(to)`
abbrev pub transitions : ExecutionStatus → ExecutionStatus → Bool
transitions wake_requested session_ready = true
transitions wake_requested failed = true
transitions wake_requested timeout = true
transitions wake_requested cancelled = true
transitions session_ready payload_delivered = true
transitions session_ready failed = true
transitions session_ready timeout = true
transitions session_ready cancelled = true
transitions payload_delivered running = true
transitions payload_delivered failed = true
transitions payload_delivered timeout = true
transitions payload_delivered cancelled = true
transitions running result_reported = true
transitions running failed = true
transitions running timeout = true
transitions running cancelled = true
transitions failed wake_requested = true
transitions failed session_ready = true
transitions timeout wake_requested = true
transitions timeout session_ready = true
transitions timeout cancelled = true
transitions _ _ = false

pub data FailureCode : Type 0 where
  peer_unreachable session_expired payload_too_large delivery_failed runtime_error : FailureCode
  result_parse_error auth_failed rate_limited lease_expired execution_timeout : FailureCode
  cancelled_by_operator duplicate_payload_suppressed other : FailureCode

pub data ResultOutcome : Type 0 where
  success partial rejected : ResultOutcome

pub record ResultArtifact : Type 0 where
  pub outcome : ResultOutcome
  pub summary : String
  pub artifact_ids : Option (List String)
  pub error_code : Option FailureCode

pub data EventKind : Type 0 where
  exec_wake_requested exec_session_ready exec_payload_delivered exec_running : EventKind
  exec_result_reported exec_failed exec_timeout exec_cancelled : EventKind

abbrev pub status_to_event_kind : ExecutionStatus → EventKind
status_to_event_kind wake_requested = exec_wake_requested
status_to_event_kind session_ready = exec_session_ready
status_to_event_kind payload_delivered = exec_payload_delivered
status_to_event_kind running = exec_running
status_to_event_kind result_reported = exec_result_reported
status_to_event_kind failed = exec_failed
status_to_event_kind timeout = exec_timeout
status_to_event_kind cancelled = exec_cancelled

-- `ExecutionEvent.metadata`
pub record Metadata : Type 0 where
  pub failure_code : Option FailureCode
  pub lease_deadline : Option String
  pub outcome : Option ResultOutcome
  pub execution_duration_ms : Option ℤ
  pub wake_event_id : Option ℕ

pub record ExecutionEvent : Type 0 where
  pub id : ℕ
  pub timestamp : ℕ
  pub run_id : String
  pub session_key : String
  pub peer_node_id : String
  pub parent_task_id : Option String
  pub kind : EventKind
  pub metadata : Metadata

pub record RunState : Type 0 where
  pub run_id : String
  pub session_key : String
  pub peer_node_id : String
  pub parent_task_id : Option String
  pub status : ExecutionStatus
  pub failure_code : Option FailureCode
  pub result : Option ResultArtifact
  pub lease_deadline : Option String
  pub wake_event_id : Option ℕ
  pub created_at : ℕ
  pub updated_at : ℕ
  pub payload_delivered_at : Option ℕ
  pub started_at : Option ℕ
  pub completed_at : Option ℕ
  pub attempts : ℕ
  pub payload_delivered : Bool

pub data CloseoutKind : Type 0 where
  completed failed timed_out waiting cancelled : CloseoutKind

pub record CloseoutSummary : Type 0 where
  pub run_id : String
  pub session_key : String
  pub peer_node_id : String
  pub kind : CloseoutKind
  pub attempts : ℕ
  pub result : Option ResultArtifact
  pub failure_code : Option FailureCode
  pub updated_at : ℕ

-- The alias table, whose values are all failure codes. A text that it does not name, and an inherited key
-- of the table object, is `other`.
unfoldable pub resolve_failure_code : String → FailureCode
resolve_failure_code raw =
    if raw == "unreachable" || raw == "peer_unreachable"
    then peer_unreachable
    else if raw == "expired" || raw == "session_expired"
    then session_expired
    else if raw == "payload_large" || raw == "payload_too_large"
    then payload_too_large
    else if raw == "delivery" || raw == "delivery_failed"
    then delivery_failed
    else if raw == "runtime" || raw == "runtime_error"
    then runtime_error
    else if raw == "parse" || raw == "result_parse_error"
    then result_parse_error
    else if raw == "auth" || raw == "auth_failed"
    then auth_failed
    else if raw == "rate_limit" || raw == "rate_limited"
    then rate_limited
    else if raw == "lease" || raw == "lease_expired"
    then lease_expired
    else if raw == "timeout" || raw == "execution_timeout"
    then execution_timeout
    else if raw == "cancelled" || raw == "cancelled_by_operator"
    then cancelled_by_operator
    else if raw == "duplicate" || raw == "duplicate_payload_suppressed"
    then duplicate_payload_suppressed
    else other
