-- ===== src/EventBuffer/Examples.antt =====
-- Runs of the event buffer, and instances of its theorems. An event is its own id here.
use a2a_broker.Prelude.{ℕ, ◌≡◌, filter, ◌∷◌, ◌-◌, ◌++◌, refl, ◌≤◌, arith}
use a2a_broker.EventBuffer.{
  CursorEventBuffer, new, emit, trim, subscribe, latest_id, size, List, none, some, true, drop,
  length, [],
}
use a2a_broker.EventBuffer.Replay.{cursor, subscribe-pages, clip, wanted, subscribe-eq-filter}
use a2a_broker.EventBuffer.Retention.{emit_all, numbered, emit_all-keeps_newest}

abbrev itself : ℕ → ℕ
itself n = n

abbrev five : List (ℕ → ℕ)
five = itself ∷ itself ∷ itself ∷ itself ∷ itself ∷ []

-- Five events in a buffer for three.
abbrev small : CursorEventBuffer ℕ
small = record { events = 3 ∷ 4 ∷ 5 ∷ []; max_events = 3; next_id = 5 }

emit_five : emit_all (new 3) five ≡ small
unfolding emit_all new emit trim
emit_five = refl

-- A limit of 0 gives one event, not none.
limit_zero : subscribe itself small none (some 0) (λ e. true) ≡ 3 ∷ []
unfolding subscribe
limit_zero = refl

subscribe_after : subscribe itself small (some 3) none (λ e. true) ≡ 4 ∷ 5 ∷ []
unfolding subscribe
subscribe_after = refl

emit_all-keeps_newest_example :
    let history = numbered 0 five in
    ((emit_all (new 3) five).events ≡ drop (length history - 3) history)
    × (latest_id (emit_all (new 3) five) ≡ length five)
    × (size (emit_all (new 3) five) ≤ 3)
emit_all-keeps_newest_example = emit_all-keeps_newest 3 five

subscribe-eq-filter_example :
    subscribe itself small (some 3) (some 0) (λ e. true)
    ≡ clip (some 0) (filter (wanted itself 3 (λ e. true)) small.events)
subscribe-eq-filter_example = subscribe-eq-filter itself small (some 3) (some 0) (λ e. true)

subscribe-pages_example :
    let page = subscribe itself small (some 0) (some 2) (λ e. true) in
    subscribe itself small (some 0) none (λ e. true)
    ≡ page ++ subscribe itself small (some (cursor itself 0 page)) none (λ e. true)
subscribe-pages_example = subscribe-pages itself small 0 2 (λ e. true) (omega arith)
