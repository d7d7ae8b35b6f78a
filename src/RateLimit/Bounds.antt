-- ===== src/RateLimit/Bounds.antt =====
-- What a client can get through the limiter.
use a2a_broker.Prelude.Dict
use a2a_broker.Prelude.{
  ℕ, ◌≤◌, ◌+◌, ◌≡◌, ◌∙◌, refl, ap, Bool, true, false, inl, inr, Bool-cases, String, List, [], ◌∷◌,
  ◌++◌, ◌==◌, filter, length, ltb, leb, if◌then◌else◌, arith, length-append, subst, eq_iff,
}
use mathlib.Core.List.{append-nil}
use a2a_broker.RateLimit.Snapshots.{snapshot-Agrees}
use a2a_broker.RateLimit.{
  Event, request, look, snapshot, Limiter, Request, check, new, run, in_window,
}
use a2a_broker.RateLimit.Spec.{times, admit, IsTimely, within}
use a2a_broker.RateLimit.Window.{Agrees, allowed-Agrees, check-Agrees, times-append, filter-append}

run-eq-admit_from :
    (not_after : String → String → Bool) (l : Limiter) (log : List Request) (now : ℕ)
    (events : List Event)
    → IsTimely now events
    → Agrees now l log
    → run not_after l log events ≡ admit l.max_requests l.window_ms log events
unfolding run admit check snapshot
run-eq-admit_from not_after l log now [] timely a = refl
run-eq-admit_from not_after l log now (request r ∷ events) timely a =
    run-eq-admit_from not_after (check l r.key r.at).1
      (if (check l r.key r.at).0.allowed then log ++ r ∷ [] else log) r.at events timely.1
      (check-Agrees l log now r timely.0 a)
    ∙ ap
        (λ (passes : Bool).
          admit l.max_requests l.window_ms (if passes then log ++ r ∷ [] else log) events)
        (allowed-Agrees l log now r timely.0 a)
run-eq-admit_from not_after l log now (look at top_keys ∷ events) timely a =
    run-eq-admit_from not_after (snapshot not_after l at top_keys).1 log at events timely.1
      (snapshot-Agrees not_after l log now at top_keys timely.0 a)

-- A limiter that drops the times that have left its window, when a request comes and when the operator
-- looks at it, lets through exactly the requests that the limiter with the whole log does, if requests
-- and looks come in the order of time.
pub run-eq-admit :
    (not_after : String → String → Bool) (limit window : ℕ) (events : List Event)
    → IsTimely 0 events
    → run not_after (new limit window) [] events ≡ admit limit window [] events
unfolding new Dict.get
run-eq-admit not_after limit window events timely =
    run-eq-admit_from not_after (new limit window) [] 0 events timely
      (record { unique = tt; shows = λ key later late. refl })

-- A window counts no more than a window that ends before it and keeps what is later.
count_later :
    (window end at : ℕ) (ts : List ℕ)
    → at ≤ end
    → length (filter (within window end) ts) ≤ length (filter (in_window window at) ts)
count_later window end at [] h = omega arith
count_later window end at (t ∷ ts) h = ground (arith, count_later window end at ts h)

-- A request that passes keeps every window of its key at the limit.
count_passed :
    (limit window end at : ℕ) (ts : List ℕ)
    → length (filter (in_window window at) ts) + 1 ≤ limit
    → length (filter (within window end) ts) ≤ limit
    → length (filter (within window end) (ts ++ at ∷ [])) ≤ limit
count_passed limit window end at ts h old =
    let last : length (filter (within window end) (ts ++ at ∷ []))
        ≡ length (filter (within window end) ts) + length (filter (within window end) (at ∷ [])) =
      ap length (filter-append (within window end) ts (at ∷ [])) ∙ length-append _ _ in
    elim (Bool-cases (leb at end)) [
      | inl e ↦ ground (arith, last, count_later window end at ts)
      | inr e ↦ ground (arith, last)
    ]

log-bounded :
    (limit window : ℕ) (log : List Request) (r : Request) (key : String) (end : ℕ)
    (mine passes : Bool)
    → r.key == key ≡ mine
    → ltb (length (filter (in_window window r.at) (times r.key log))) limit ≡ passes
    → length (filter (within window end) (times key log)) ≤ limit
    → length (filter (within window end) (times key (if passes then log ++ r ∷ [] else log)))
      ≤ limit
log-bounded limit window log r key end mine false e e' h = h
log-bounded limit window log r key end true true e e' h =
    let same : times key (log ++ r ∷ []) ≡ times key log ++ r.at ∷ [] =
      times-append key log r ∙ rw e refl in
    let few : length (filter (in_window window r.at) (times r.key log)) + 1 ≤ limit =
      ground (arith, e') in
    rw same (
      count_passed limit window end r.at (times key log)
        (subst (λ (k : String). length (filter (in_window window r.at) (times k log)) + 1 ≤ limit)
          ((eq_iff r.key key).0 e) few)
        h)
log-bounded limit window log r key end false true e e' h =
    let same : times key (log ++ r ∷ []) ≡ times key log =
      times-append key log r ∙ rw e (append-nil _) in
    rw same h

admit-bounded :
    (limit window : ℕ) (log : List Request) (events : List Event) (key : String) (end : ℕ)
    → length (filter (within window end) (times key log)) ≤ limit
    → length (filter (within window end) (times key (admit limit window log events))) ≤ limit
unfolding admit
admit-bounded limit window log [] key end h = h
admit-bounded limit window log (look at top_keys ∷ events) key end h =
    admit-bounded limit window log events key end h
admit-bounded limit window log (request r ∷ events) key end h =
    let passes : Bool = ltb (length (filter (in_window window r.at) (times r.key log))) limit in
    admit-bounded limit window (if passes then log ++ r ∷ [] else log) events key end
      (log-bounded limit window log r key end (r.key == key) passes refl refl h)

-- Of requests that come in the order of time, the operator's looks among them, at most the limit of a key
-- pass in any window of the length set, wherever the window ends.
pub run-bounded :
    (not_after : String → String → Bool) (limit window : ℕ) (events : List Event) (key : String)
    (end : ℕ)
    → IsTimely 0 events
    → length (filter (within window end) (times key (run not_after (new limit window) [] events)))
      ≤ limit
run-bounded not_after limit window events key end timely =
    rw (run-eq-admit not_after limit window events timely)
      (admit-bounded limit window [] events key end (omega arith))
