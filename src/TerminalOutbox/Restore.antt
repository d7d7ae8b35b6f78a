-- ===== src/TerminalOutbox/Restore.antt =====
-- src/core/terminal-event-outbox.ts, `restoreSnapshot`: persisted records are merged in.
use a2a_broker.Prelude.Dict.{Dict}
use a2a_broker.TerminalOutbox.Outbox.{
  Outbox, present, append_event, enforce_retention, bare_receipt, build_receipt_from_ack,
  audit_from_ack, audit_from_receipt, count_child,
}
use a2a_broker.TerminalOutbox.Types.{
  AckEvidence, AckState, ReceiptState, OutboxEvent, SavedEvent, SavedReceipt,
  normalize_receipt_status, ReceiptStatus,
}
use a2a_broker.Prelude.{true, false, String, Option, List, none, or_else, some, one_of, ◌∷◌, []}

-- `{ status: "receipt_confirmed", … note: "migrated legacy deliveredAt ack" }`
abbrev pub migrated_ack : String → AckState
migrated_ack delivered_at = record {
  evidence = AckEvidence.operator_visible;
  acknowledged_at = delivered_at;
  receipt_id = none;
  note = some "migrated legacy deliveredAt ack";
}

unfoldable pub restored_ack : SavedEvent → Option AckState
restored_ack e = elim e.ack [
  | some a ↦ some a
  | none ↦ elim (present e.delivered_at) [ none ↦ none | some at ↦ some (migrated_ack at) ]
]

unfoldable pub normalize_receipt_state : SavedReceipt → ReceiptState
unfolding normalize_receipt_status
normalize_receipt_state r = record {
  status = or_else (normalize_receipt_status r.status) ReceiptStatus.accepted;
  updated_at = r.updated_at;
  evidence = r.evidence;
  receipt_id = r.receipt_id;
  note = r.note;
}

unfoldable pub restored_receipt : SavedEvent → Option AckState → ReceiptState
unfolding normalize_receipt_state
restored_receipt e ack = elim e.receipt [
  | some r ↦ normalize_receipt_state r
  | none ↦ elim ack [
    | some a ↦ build_receipt_from_ack a
    | none ↦ bare_receipt ReceiptStatus.accepted e.created_at none
  ]
]

unfoldable pub restored : SavedEvent → OutboxEvent
unfolding restored_ack restored_receipt
restored e =
    let ack : Option AckState = restored_ack e in
    let receipt : ReceiptState = restored_receipt e ack in
    record {
      id = e.id;
      task_event_id = e.task_event_id;
      payload = e.payload;
      created_at = e.created_at;
      ack = ack;
      receipt = receipt;
      ack_audit = some (elim ack [
        | some a ↦ audit_from_ack e.payload a receipt.status
        | none ↦ audit_from_receipt e.payload receipt
      ]);
      delivered_at = e.delivered_at;
      attempts = e.attempts;
    }

unfoldable pub restore : SavedEvent → Outbox → Outbox
unfolding restored append_event
restore e o = elim (one_of o.seen e.id) [ true ↦ o | false ↦ append_event (restored e) o ]

unfoldable pub restore_all : List SavedEvent → Outbox → Outbox
unfolding restore
restore_all [] o = o
restore_all (e ∷ es) o = restore_all es (restore e o)

unfoldable pub rebuild_from : List OutboxEvent → Dict (List String) → Dict (List String)
rebuild_from [] d = d
rebuild_from (e ∷ es) d = elim (present e.payload.run) [
  | none ↦ rebuild_from es d
  | some run ↦ rebuild_from es (count_child e.payload run d)
]

unfoldable pub rebuild_succeeded_children : Outbox → Outbox
unfolding rebuild_from
rebuild_succeeded_children o = record o { succeeded_child_ids = rebuild_from o.events [] }

unfoldable pub restore_snapshot : List SavedEvent → Outbox → Outbox
unfolding restore_all enforce_retention rebuild_succeeded_children
restore_snapshot es o = rebuild_succeeded_children (enforce_retention (restore_all es o))
