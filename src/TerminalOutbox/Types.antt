-- ===== src/TerminalOutbox/Types.antt =====
-- src/core/terminal-event-outbox.ts, its types. The reason of an audit is the data that its text is made
-- of; of the payload the fields stand that the class itself reads and writes.
use a2a_broker.Prelude.{ℕ, String, Option, none, some, if◌then◌else◌, ◌==◌, ◌||◌, Bool, true, false}
use a2a_broker.Broker.Types.{TaskStatus}

pub data AckEvidence : Type 0 where
  current_session_visible operator_visible operator_confirmed provider_delivery_receipt :
      AckEvidence

-- `isTerminalTaskOutboxAckEvidence`, with the evidence that the text names
unfoldable pub evidence_of : String → Option AckEvidence
evidence_of raw =
    if raw == "current_session_visible"
    then some AckEvidence.current_session_visible
    else if raw == "operator_visible"
    then some AckEvidence.operator_visible
    else if raw == "operator_confirmed"
    then some operator_confirmed
    else if raw == "provider_delivery_receipt"
    then some provider_delivery_receipt
    else none

pub data ReceiptStatus : Type 0 where
  accepted started produced provider_sent provider_accepted : ReceiptStatus
  current_session_visible operator_visible timed_out stale failed : ReceiptStatus

-- `isTerminalTaskReceiptStatus`, with the status that the text names
unfoldable pub receipt_status_of : String → Option ReceiptStatus
receipt_status_of raw =
    if raw == "accepted"
    then some ReceiptStatus.accepted
    else if raw == "started"
    then some ReceiptStatus.started
    else if raw == "produced"
    then some produced
    else if raw == "provider_sent"
    then some provider_sent
    else if raw == "provider_accepted"
    then some provider_accepted
    else if raw == "current_session_visible"
    then some ReceiptStatus.current_session_visible
    else if raw == "operator_visible"
    then some ReceiptStatus.operator_visible
    else if raw == "timed_out"
    then some timed_out
    else if raw == "stale"
    then some stale
    else if raw == "failed"
    then some ReceiptStatus.failed
    else none

unfoldable pub normalize_receipt_status : String → Option ReceiptStatus
unfolding receipt_status_of
normalize_receipt_status raw = elim (receipt_status_of raw) [
  | some status ↦ some status
  | none ↦
      if raw == "sent" || raw == "provider_delivered_if_known" then some provider_sent else none
]

pub record Payload : Type 0 where
  pub task_id : String
  pub status : TaskStatus
  pub run : Option String
  pub trace_id : Option String
  pub worker : Option String
  pub repo : Option String
  pub issue : Option ℕ
  pub task_brief : Option String
  pub parent_round_total : Option ℕ
  pub parent_round_progress : Option ℕ

pub record AckInput : Type 0 where
  pub evidence : String
  pub acknowledged_at : Option String
  pub receipt_id : Option String
  pub note : Option String

pub record AckState : Type 0 where
  pub evidence : AckEvidence
  pub acknowledged_at : String
  pub receipt_id : Option String
  pub note : Option String

pub record ReceiptState : Type 0 where
  pub status : ReceiptStatus
  pub updated_at : String
  pub evidence : Option AckEvidence
  pub receipt_id : Option String
  pub note : Option String

pub record ReceiptInput : Type 0 where
  pub status : String
  pub updated_at : Option String
  pub note : Option String

pub data AckDecision : Type 0 where
  pending eligible confirmed rejected : AckDecision

pub data Reason : Type 0 where
  event_accepted projection_accepted send_success_only : Reason
  confirmed_from : AckEvidence → Reason
  receipt_is : ReceiptStatus → Reason

pub record AckAudit : Type 0 where
  pub decision : AckDecision
  pub reason : Reason
  pub updated_at : String
  pub task_id : String
  pub worker : Option String
  pub repo : Option String
  pub issue : Option ℕ
  pub task_brief : Option String
  pub run : Option String
  pub trace_id : Option String
  pub receipt_status : Option ReceiptStatus
  pub evidence : Option AckEvidence
  pub receipt_id : Option String

-- `TerminalTaskOutboxEvent`
pub record OutboxEvent : Type 0 where
  pub id : String
  pub task_event_id : ℕ
  pub payload : Payload
  pub created_at : String
  pub ack : Option AckState
  pub receipt : ReceiptState
  pub ack_audit : Option AckAudit
  pub delivered_at : Option String
  pub attempts : ℕ

-- The receipt of a persisted record, whose status is any text.
pub record SavedReceipt : Type 0 where
  pub status : String
  pub updated_at : String
  pub evidence : Option AckEvidence
  pub receipt_id : Option String
  pub note : Option String

-- A persisted record, which may have no receipt.
pub record SavedEvent : Type 0 where
  pub id : String
  pub task_event_id : ℕ
  pub payload : Payload
  pub created_at : String
  pub ack : Option AckState
  pub receipt : Option SavedReceipt
  pub delivered_at : Option String
  pub attempts : ℕ

-- `TaskStatusEventKind`
pub data EventKind : Type 0 where
  created approved claimed started succeeded failed canceled requeued reassigned : EventKind

-- `TERMINAL_TASK_EVENT_KINDS.has(kind)`
abbrev pub is_terminal_kind : EventKind → Bool
is_terminal_kind EventKind.succeeded = true
is_terminal_kind EventKind.failed = true
is_terminal_kind EventKind.canceled = true
is_terminal_kind _ = false
