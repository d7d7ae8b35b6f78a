-- ===== src/TerminalOutbox/Evidence.antt =====
-- What confirms a record of src/core/terminal-event-outbox.ts, and what does not.
use mathlib.Core.List.{[]}
use a2a_broker.Prelude.{
  String, Option, none, List, map, ◌≡◌, Bool, ◌∷◌, Option-cases, Bool-cases, ◌==◌, inl, inr, ap,
  refl, or_else,
}
use a2a_broker.Prelude.Exec.{err}
use a2a_broker.TerminalOutbox.Types.{
  OutboxEvent, AckInput, ReceiptInput, evidence_of, receipt_status_of,
}
use a2a_broker.TerminalOutbox.Outbox.{Outbox, find_event, bare_receipt}
use a2a_broker.TerminalOutbox.Acks.{
  acknowledge, record_receipt_status, replace, type_error, rejected_ack, received,
}
use a2a_broker.TerminalOutbox.Cursor.{is_receipt_confirmed}

-- Which records are confirmed, in their order.
abbrev confirmations : Outbox → List Bool
confirmations o = map is_receipt_confirmed o.events

replace-confirmations :
    (id : String) (change : OutboxEvent → OutboxEvent) (es : List OutboxEvent)
    → ((e : OutboxEvent) → is_receipt_confirmed (change e) ≡ is_receipt_confirmed e)
    → map is_receipt_confirmed (replace id change es) ≡ map is_receipt_confirmed es
unfolding replace
replace-confirmations id change [] same = refl
replace-confirmations id change (e ∷ es) same = elim (Bool-cases (e.id == id)) [
  | inl here ↦ rw (here, same e) refl
  | inr other ↦
      rw other (ap (λ l. is_receipt_confirmed e ∷ l) (replace-confirmations id change es same))
]

record_receipt_status-confirmations :
    (cleaned : Option String → Option String) (id : String) (input : ReceiptInput) (now : String)
    (o : Outbox)
    → confirmations (record_receipt_status cleaned id input now o).1 ≡ confirmations o
unfolding record_receipt_status is_receipt_confirmed
record_receipt_status-confirmations cleaned id input now o =
    elim (Option-cases (receipt_status_of input.status)) [
      | inl unknown ↦ rw (record_receipt_status, unknown) refl
      | inr (status, known) ↦ elim (Option-cases (find_event id o.events)) [
        | inl missing ↦ rw (record_receipt_status, known, missing) refl
        | inr (e, found) ↦
            rw (record_receipt_status, known, found)
              (replace-confirmations id
                (received (bare_receipt status (or_else input.updated_at now) (cleaned input.note)))
                o.events (λ x. refl))
      ]
    ]

-- A receipt changes no confirmation, and an ack without evidence throws and changes none either.
pub record SendConfirmsNone (cleaned : Option String → Option String) (id : String)
    (r : ReceiptInput) (a : AckInput) (now : String) (o : Outbox) : Type 0 where
  pub by_receipt : confirmations (record_receipt_status cleaned id r now o).1 ≡ confirmations o
  pub by_ack : confirmations (acknowledge cleaned id a now o).1 ≡ confirmations o
  pub throws : (acknowledge cleaned id a now o).0 ≡ err type_error

-- A notifier that reports a receipt, whatever its status, and then an ack whose evidence is none of the
-- four that are accepted confirms no record: neither call changes which records are confirmed, and the
-- ack throws. Each call is made on the same outbox.
pub send_success-confirms_none :
    (cleaned : Option String → Option String) (id : String) (r : ReceiptInput) (a : AckInput)
    (now : String) (o : Outbox)
    → evidence_of a.evidence ≡ none
    → SendConfirmsNone cleaned id r a now o
unfolding acknowledge is_receipt_confirmed
send_success-confirms_none cleaned id r a now o unknown = record {
  by_receipt = record_receipt_status-confirmations cleaned id r now o;
  by_ack =
      rw (acknowledge, unknown) (replace-confirmations id (rejected_ack now) o.events (λ x. refl));
  throws = rw (acknowledge, unknown) refl;
}
