-- ===== src/Delivery/Types.antt =====
-- src/core/delivery-lifecycle-types.ts, with the alias table of src/core/delivery-lifecycle.ts. A time that
-- the manager reads from its clock is a number of milliseconds; a deadline is the text of the caller.
use a2a_broker.Prelude.{ℕ, String, Bool, true, false, List, Option, ◌==◌, if◌then◌else◌, ◌||◌}
use a2a_broker.Prelude.Integers.{ℤ}

pub data DeliveryStatus : Type 0 where
  result_ready delivery_pending delivering delivered acked failed retrying timed_out :
      DeliveryStatus

-- `DELIVERY_TRANSITIONS[from].has(to)`
abbrev pub transitions : DeliveryStatus → DeliveryStatus → Bool
transitions result_ready delivery_pending = true
transitions result_ready failed = true
transitions result_ready timed_out = true
transitions delivery_pending delivering = true
transitions delivery_pending retrying = true
transitions delivery_pending failed = true
transitions delivery_pending timed_out = true
transitions delivering delivered = true
transitions delivering failed = true
transitions delivering timed_out = true
transitions delivered acked = true
transitions delivered timed_out = true
transitions failed retrying = true
transitions failed timed_out = true
transitions retrying delivery_pending = true
transitions retrying failed = true
transitions retrying timed_out = true
transitions timed_out retrying = true
transitions _ _ = false

pub data FailureCode : Type 0 where
  originator_unreachable channel_unavailable payload_too_large delivery_timeout : FailureCode
  ack_timeout rate_limited auth_failed duplicate_delivery_suppressed : FailureCode
  max_retries_exceeded serialization_error other : FailureCode

pub data Outcome : Type 0 where
  success partial rejected : Outcome

pub record DeliveryArtifact : Type 0 where
  pub run_id : String
  pub outcome : Outcome
  pub summary : String
  pub artifact_ids : Option (List String)
  pub execution_error_code : Option String

pub data EventKind : Type 0 where
  del_result_ready del_pending del_delivering del_delivered : EventKind
  del_acked del_failed del_retrying del_timed_out : EventKind

abbrev pub status_to_event_kind : DeliveryStatus → EventKind
status_to_event_kind result_ready = del_result_ready
status_to_event_kind delivery_pending = del_pending
status_to_event_kind delivering = del_delivering
status_to_event_kind delivered = del_delivered
status_to_event_kind acked = del_acked
status_to_event_kind failed = del_failed
status_to_event_kind retrying = del_retrying
status_to_event_kind timed_out = del_timed_out

-- `DeliveryEvent.metadata`
pub record Metadata : Type 0 where
  pub failure_code : Option FailureCode
  pub attempt : ℕ
  pub max_retries : Option ℕ
  pub delivery_deadline : Option String
  pub ack_deadline : Option String
  pub delivery_duration_ms : Option ℤ
  pub ack_duration_ms : Option ℤ
  pub channel : Option String

pub record DeliveryEvent : Type 0 where
  pub id : ℕ
  pub timestamp : ℕ
  pub delivery_id : String
  pub run_id : String
  pub originator_session_key : String
  pub originator_node_id : String
  pub parent_task_id : Option String
  pub kind : EventKind
  pub metadata : Metadata

pub record DeliveryState : Type 0 where
  pub delivery_id : String
  pub run_id : String
  pub originator_session_key : String
  pub originator_node_id : String
  pub parent_task_id : Option String
  pub status : DeliveryStatus
  pub artifact : DeliveryArtifact
  pub failure_code : Option FailureCode
  pub attempt : ℕ
  pub max_retries : ℕ
  pub delivery_deadline : Option String
  pub ack_deadline : Option String
  pub channel : Option String
  pub acknowledged : Bool
  pub duplicate_suppressed : Bool
  pub created_at : ℕ
  pub updated_at : ℕ
  pub delivery_started_at : Option ℕ
  pub delivered_at : Option ℕ
  pub acked_at : Option ℕ
  pub completed_at : Option ℕ

pub data CloseoutKind : Type 0 where
  acked delivered_unacked failed timed_out max_retries_exceeded pending : CloseoutKind
  duplicate_suppressed : CloseoutKind

pub record CloseoutSummary : Type 0 where
  pub delivery_id : String
  pub run_id : String
  pub originator_session_key : String
  pub originator_node_id : String
  pub kind : CloseoutKind
  pub attempts : ℕ
  pub artifact : Option DeliveryArtifact
  pub failure_code : Option FailureCode
  pub channel : Option String
  pub updated_at : ℕ

-- The alias table, whose values are all failure codes. A text that it does not name, and an inherited key
-- of the table object, is `other`.
unfoldable pub resolve_failure_code : String → FailureCode
resolve_failure_code raw =
    if raw == "unreachable" || raw == "originator_unreachable"
    then originator_unreachable
    else if raw == "channel_unavailable"
    then channel_unavailable
    else if raw == "payload_large" || raw == "payload_too_large"
    then payload_too_large
    else if raw == "delivery_timeout"
    then delivery_timeout
    else if raw == "ack_timeout"
    then ack_timeout
    else if raw == "rate_limit" || raw == "rate_limited"
    then rate_limited
    else if raw == "auth" || raw == "auth_failed"
    then auth_failed
    else if raw == "duplicate" || raw == "duplicate_delivery_suppressed"
    then duplicate_delivery_suppressed
    else if raw == "max_retries" || raw == "max_retries_exceeded"
    then max_retries_exceeded
    else if raw == "serialization" || raw == "serialization_error"
    then serialization_error
    else other
