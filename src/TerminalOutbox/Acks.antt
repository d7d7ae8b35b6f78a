-- ===== src/TerminalOutbox/Acks.antt =====
-- src/core/terminal-event-outbox.ts, `acknowledge` and `recordReceiptStatus`. `cleaned` is sanitizeAckText
-- with its limit; `now` is the time of the call.
use mathlib.Core.List.{[]}
use a2a_broker.Prelude.Exec.{Exec, ok, err}
use a2a_broker.TerminalOutbox.Outbox.{
  Outbox, find_event, build_ack_audit, audit_from_ack, audit_from_receipt, evidence_status,
  build_receipt_from_ack, bare_receipt,
}
use a2a_broker.TerminalOutbox.Types.{
  AckEvidence, AckInput, AckState, ReceiptState, ReceiptInput, OutboxEvent, evidence_of,
  receipt_status_of, rejected, send_success_only,
}
use a2a_broker.Prelude.{
  true, false, String, Option, List, ◌∷◌, or_else, some, none, if◌then◌else◌, ◌==◌, ◌+◌, is_some,
}

-- A record changed in place: the first with the id, which `find` has given.
unfoldable pub replace : String → (OutboxEvent → OutboxEvent) → List OutboxEvent → List OutboxEvent
replace id change [] = []
replace id change (e ∷ es) =
    let rest = replace id change es in if e.id == id then change e ∷ es else e ∷ rest

abbrev pub change_event : String → (OutboxEvent → OutboxEvent) → Outbox → Outbox
change_event id change o = record o { events = replace id change o.events }

abbrev pub build_ack_state :
    (Option String → Option String) → AckInput → AckEvidence → String → AckState
build_ack_state cleaned input evidence now = record {
  evidence = evidence;
  acknowledged_at = or_else input.acknowledged_at now;
  receipt_id = cleaned input.receipt_id;
  note = cleaned input.note;
}

abbrev pub acknowledged : AckState → OutboxEvent → OutboxEvent
acknowledged a e = record e {
  ack = some a;
  receipt = build_receipt_from_ack a;
  ack_audit = some (audit_from_ack e.payload a (evidence_status a.evidence));
  delivered_at = none;
  attempts = e.attempts + 1;
}

abbrev pub rejected_ack : String → OutboxEvent → OutboxEvent
rejected_ack now e = record e {
  ack_audit =
      some (build_ack_audit e.payload rejected send_success_only now e.receipt.status none none);
}

pub data OutboxError : Type 0 where
  type_error : OutboxError

abbrev pub Action : Type 0 → Type 0
Action = Exec Outbox OutboxError

unfoldable pub acknowledge :
    (Option String → Option String) → String → AckInput → String → Action (Option OutboxEvent)
unfolding evidence_of find_event replace
acknowledge cleaned id input now o = elim (evidence_of input.evidence) [
  | none ↦ (err type_error, change_event id (rejected_ack now) o)
  | some evidence ↦ elim (find_event id o.events) [
    | none ↦ (ok none, o)
    | some e ↦ elim (is_some e.ack) [
      | true ↦ (ok (some e), o)
      | false ↦
          let a : AckState = build_ack_state cleaned input evidence now in
          (ok (some (acknowledged a e)), change_event id (acknowledged a) o)
    ]
  ]
]

abbrev pub received : ReceiptState → OutboxEvent → OutboxEvent
received r e = record e { receipt = r; ack_audit = some (audit_from_receipt e.payload r) }

unfoldable pub record_receipt_status :
    (Option String → Option String) → String → ReceiptInput → String → Action (Option OutboxEvent)
unfolding receipt_status_of find_event replace
record_receipt_status cleaned id input now o = elim (receipt_status_of input.status) [
  | none ↦ (err type_error, o)
  | some status ↦ elim (find_event id o.events) [
    | none ↦ (ok none, o)
    | some e ↦
        let r : ReceiptState =
          bare_receipt status (or_else input.updated_at now) (cleaned input.note) in
        (ok (some (received r e)), change_event id (received r) o)
  ]
]
