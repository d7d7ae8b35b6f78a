-- ===== src/EventBuffer.antt =====
-- src/core/event-buffer.ts: the cursor event buffer that the managers share. An id is a number that
-- `allocateId` counts up; `maxEvents` is a whole number, as the managers that build the buffer give it.
pub mod Retention
mod Examples
pub mod Replay
pub mod Latest
pub mod Order
pub mod Announce
use a2a_broker.Prelude.{
  ℕ, zero, suc, ◌+◌, ◌-◌, List, [], ◌∷◌, ◌++◌, Option, none, some, Bool, true, false, not, ◌||◌,
  length, drop, leb, ltb, if◌then◌else◌, or_else, or_else,
}

pub record CursorEventBuffer {ℓ} (E : Type ℓ) : Type ℓ where
  pub events : List E
  pub max_events : ℕ
  pub next_id : ℕ

module _ {ℓ} {E : Type ℓ} where
  -- `new CursorEventBuffer(maxEvents)`
  unfoldable pub new : ℕ → CursorEventBuffer E
  new max_events = record { events = []; max_events = max_events; next_id = 0 }

  unfoldable pub allocate_id : CursorEventBuffer E → CursorEventBuffer E × ℕ
  allocate_id b = (record b { next_id = b.next_id + 1 }, b.next_id + 1)

  -- `if (events.length > max) events.splice(0, events.length - max)`: the oldest events go.
  unfoldable pub trim : ℕ → List E → List E
  trim max_events events =
      if ltb max_events (length events) then drop (length events - max_events) events else events

  unfoldable pub push : CursorEventBuffer E → E → CursorEventBuffer E
  push b event = record b { events = trim b.max_events (b.events ++ event ∷ []) }

  -- `emitEvent`: the event is made from its id.
  unfoldable pub emit : CursorEventBuffer E → (ℕ → E) → CursorEventBuffer E
  unfolding allocate_id push
  emit b make = let (allocated, id) = allocate_id b in push allocated (make id)

  -- `options.limit !== undefined && result.length >= options.limit`
  abbrev pub reached : Option ℕ → List E → Bool
  reached none result = false
  reached (some limit) result = leb limit (length result)

  -- `latestId`
  unfoldable pub latest_id : CursorEventBuffer E → ℕ
  latest_id b = b.next_id

  -- `size`
  unfoldable pub size : CursorEventBuffer E → ℕ
  size b = length b.events

module _ {ℓ} {E : Type ℓ} (id_of : E → ℕ) where
  -- The loop of `subscribe`, with the events collected so far.
  unfoldable pub collect : ℕ → Option ℕ → (E → Bool) → List E → List E → List E
  collect after_id limit matches result [] = result
  collect after_id limit matches result (event ∷ events) =
      elim (leb (id_of event) after_id || not (matches event)) [
        | true ↦ collect after_id limit matches result events
        | false ↦ elim (reached limit (result ++ event ∷ [])) [
          | true ↦ result ++ event ∷ []
          | false ↦ collect after_id limit matches (result ++ event ∷ []) events
        ]
      ]

  unfoldable pub subscribe : CursorEventBuffer E → Option ℕ → Option ℕ → (E → Bool) → List E
  unfolding collect
  subscribe b after_id limit matches = collect (or_else after_id 0) limit matches [] b.events
