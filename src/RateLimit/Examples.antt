-- ===== src/RateLimit/Examples.antt =====
-- Three requests of one client and one of another, with two a second.
use a2a_broker.Prelude.{◌≤◌, ◌≡◌, List, [], ◌∷◌, length, filter, refl, arith, String, Bool, true}
use a2a_broker.Prelude.Dict
use a2a_broker.RateLimit.{Event, request, look, new, run, check, snapshot}
use a2a_broker.RateLimit.Spec.{times, admit, within}
use a2a_broker.RateLimit.Bounds.{run-eq-admit, run-bounded}

abbrev by_name : String → String → Bool
by_name a b = true

abbrev events : List Event
events =
    request (record { key = "ip:a"; at = 100 })
    ∷ request (record { key = "ip:a"; at = 200 })
    ∷ request (record { key = "ip:b"; at = 250 })
    ∷ request (record { key = "ip:a"; at = 300 })
    ∷ look 1050 5
    ∷ request (record { key = "ip:a"; at = 1100 })
    ∷ []

run_two : times "ip:a" (run by_name (new 2 1000) [] events) ≡ 100 ∷ 200 ∷ 1100 ∷ []
unfolding run new check snapshot Dict.get Dict.set Dict.remove
run_two = refl

run-eq-admit_example : run by_name (new 2 1000) [] events ≡ admit 2 1000 [] events
run-eq-admit_example = run-eq-admit by_name 2 1000 events (omega arith)

run-bounded_example :
    length (filter (within 1000 1150) (times "ip:a" (run by_name (new 2 1000) [] events))) ≤ 2
run-bounded_example = run-bounded by_name 2 1000 events "ip:a" 1150 (omega arith)
