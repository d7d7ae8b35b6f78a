-- ===== src/RateLimit/Snapshots.antt =====
-- The operator's snapshot drops what has left the window, and changes no decision.
use a2a_broker.Prelude.{
  ℕ, ◌≤◌, ◌≡◌, refl, sym, ◌∙◌, ap, String, Bool, List, [], ◌∷◌, Option, or_else, filter, arith,
  ◌==◌, if◌then◌else◌, eq_iff, Bool-cases, inl, inr,
}
use mathlib.Core.List.{Memᴰ}
use a2a_broker.Prelude.Dict
use a2a_broker.Prelude.Dict.{Dict}
use a2a_broker.RateLimit.{Limiter, Request, in_window, prune, store_times, snapshot}
use a2a_broker.RateLimit.Window.{Agrees, filter_later}

abbrev at : Dict (List ℕ) → String → List ℕ
at d key = or_else (Dict.get d key) []

store_times-at :
    (key j : String) (ts : List ℕ) (d : Dict (List ℕ))
    → at (store_times key ts d) j ≡ (if key == j then ts else at d j)
store_times-at key j [] d = rw (Dict.get-remove d key j) (ground arith)
store_times-at key j (t ∷ ts) d = rw (Dict.get-set d key j (t ∷ ts)) (ground arith)

store_times-IsUnique :
    (key : String) (ts : List ℕ) (d : Dict (List ℕ))
    → Dict.IsUnique d
    → Dict.IsUnique (store_times key ts d)
store_times-IsUnique key [] d u = Dict.remove-IsUnique d key u
store_times-IsUnique key (t ∷ ts) d u = Dict.set-IsUnique d key (t ∷ ts) u

prune-IsUnique :
    (window now : ℕ) (entries d : Dict (List ℕ))
    → Dict.IsUnique d
    → Dict.IsUnique (prune window now entries d)
prune-IsUnique window now [] d u = u
prune-IsUnique window now ((key, ts) ∷ entries) d u =
    prune-IsUnique window now entries (store_times key (filter (in_window window now) ts) d)
      (store_times-IsUnique key (filter (in_window window now) ts) d u)

-- The entries that are still to be pruned show what the map shows.
abbrev Fits : ℕ → ℕ → Dict (List ℕ) → Dict (List ℕ) → Type 0
Fits window now entries d =
    (key : String) (ts : List ℕ)
    → Memᴰ (key, ts) entries
    → filter (in_window window now) (at d key) ≡ filter (in_window window now) ts

stored-shows :
    (window now later : ℕ) (key j : String) (ts : List ℕ) (d : Dict (List ℕ))
    → now ≤ later
    → filter (in_window window now) (at d key) ≡ filter (in_window window now) ts
    → filter (in_window window later) (at (store_times key (filter (in_window window now) ts) d) j)
      ≡ filter (in_window window later) (at d j)
stored-shows window now later key j ts d late fits = elim (Bool-cases (key == j)) [
  | inl same ↦
      rw (store_times-at key j (filter (in_window window now) ts) d, same)
        (ap (filter (in_window window later)) (sym fits)
          ∙ filter_later window now later (at d key) late
          ∙ ap (λ (k : String). filter (in_window window later) (at d k)) ((eq_iff key j).0 same))
  | inr other ↦ rw (store_times-at key j (filter (in_window window now) ts) d, other) refl
]

prune-shows :
    (window now later : ℕ) (entries d : Dict (List ℕ)) (j : String)
    → now ≤ later
    → Fits window now entries d
    → filter (in_window window later) (at (prune window now entries d) j)
      ≡ filter (in_window window later) (at d j)
prune-shows window now later [] d j late fits = refl
prune-shows window now later ((key, ts) ∷ entries) d j late fits =
    let d' : Dict (List ℕ) = store_times key (filter (in_window window now) ts) d in
    let here : filter (in_window window now) (at d key) ≡ filter (in_window window now) ts =
      fits key ts (Memᴰ.head refl) in
    prune-shows window now later entries d' j late (λ k us h.
      stored-shows window now now key k ts d (omega arith) here ∙ fits k us (Memᴰ.tail h))
    ∙ stored-shows window now later key j ts d late here

pub snapshot-Agrees :
    (not_after : String → String → Bool) (l : Limiter) (log : List Request)
    (now at_time top_keys : ℕ)
    → now ≤ at_time
    → Agrees now l log
    → Agrees at_time (snapshot not_after l at_time top_keys).1 log
unfolding snapshot
snapshot-Agrees not_after l log now at_time top_keys h a = record {
  unique = prune-IsUnique l.window_ms at_time l.buckets l.buckets a.unique;
  shows = λ key later late.
      prune-shows l.window_ms at_time later l.buckets l.buckets key late (λ k ts member.
        ap (λ (o : Option (List ℕ)). filter (in_window l.window_ms at_time) (or_else o []))
          (Dict.entry-get l.buckets k ts a.unique member))
      ∙ a.shows key later (omega arith);
}
