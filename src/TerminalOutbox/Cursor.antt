-- ===== src/TerminalOutbox/Cursor.antt =====
-- src/core/terminal-event-outbox.ts: what a subscriber reads, with the cursor that it goes on from.
use a2a_broker.TerminalOutbox.Types.{OutboxEvent}
use a2a_broker.TerminalOutbox.Outbox.{Outbox, find_from}
use mathlib.Core.Option
use a2a_broker.Prelude.{
  ℕ, ◌+◌, String, Bool, false, is_some, Option, List, ◌||◌, drop, none, ◌∷◌, [], ◌++◌, some, truthy,
  take, filter, leb, length, if◌then◌else◌, ◌==◌, ltb, ◌&&◌, not,
}

unfoldable pub is_receipt_confirmed : OutboxEvent → Bool
is_receipt_confirmed e = is_some e.ack || truthy e.delivered_at

unfoldable pub index_of_id : Outbox → Option String → Option (ℕ × OutboxEvent)
unfolding find_from
index_of_id o none = none
index_of_id o (some id) = if id == "" then none else find_from 0 id o.events

-- `limit` is a number that is not negative, or absent.
unfoldable pub apply_limit : List OutboxEvent → Option ℕ → List OutboxEvent
apply_limit es none = es
apply_limit es (some n) = take n es

-- `index + 1`
abbrev pub next_index : Option (ℕ × OutboxEvent) → ℕ
next_index none = 0
next_index (some (i, e)) = i + 1

-- `subscribe`, which is `forwardEvents`
unfoldable pub subscribe : Outbox → Option String → Option ℕ → List OutboxEvent
unfolding index_of_id apply_limit
subscribe o after limit = apply_limit (drop (next_index (index_of_id o after)) o.events) limit

-- `events.at(-1)`
abbrev pub last {ℓ} : {A : Type ℓ} → List A → Option A
last [] = none
last (x ∷ []) = some x
last (x ∷ y ∷ xs) = last (y ∷ xs)

-- The indices of the records of a list, with the records that stand there.
unfoldable pub places : List OutboxEvent → List OutboxEvent → List (ℕ × OutboxEvent)
unfolding find_from
places all [] = []
places all (e ∷ es) = elim (find_from 0 e.id all) [
  | none ↦ places all es
  | some place ↦ place ∷ places all es
]

-- `nextCursor`
unfoldable pub next_cursor :
    List OutboxEvent → Option String → Option (ℕ × OutboxEvent) → List OutboxEvent → Option String
unfolding places
next_cursor all after none es = Option.map (λ (e : OutboxEvent). e.id) (last es)
next_cursor all after (some (i, found)) es =
    elim (last (filter (λ (place : ℕ × OutboxEvent). ltb i place.0) (places all es))) [
      | none ↦ after
      | some place ↦ some place.1.id
    ]

pub record SubscribeResult : Type 0 where
  pub events : List OutboxEvent
  pub cursor : Option String
  pub reconciled_unacked : ℕ

abbrev pub is_reconciled : List OutboxEvent → Option (ℕ × OutboxEvent) → OutboxEvent → Bool
is_reconciled all none e = false
is_reconciled all (some (i, found)) e = elim (find_from 0 e.id all) [
  | none ↦ false
  | some place ↦ leb place.0 i && not (is_receipt_confirmed e)
]

abbrev pub unacknowledged_before : List OutboxEvent → Option (ℕ × OutboxEvent) → List OutboxEvent
unacknowledged_before all none = []
unacknowledged_before all (some (i, found)) =
    filter (λ e. not (is_receipt_confirmed e)) (take (i + 1) all)

unfoldable pub subscribe_with_cursor : Outbox → Option String → Option ℕ → SubscribeResult
unfolding index_of_id apply_limit next_cursor
subscribe_with_cursor o after limit =
    let index = index_of_id o after in
    let replay = unacknowledged_before o.events index ++ drop (next_index index) o.events in
    let es : List OutboxEvent = apply_limit replay limit in
    record {
      events = es;
      cursor = next_cursor o.events after index es;
      reconciled_unacked = length (filter (is_reconciled o.events index) es);
    }
