-- ===== src/RateLimit/Spec.antt =====
-- What the limiter promises: it forgets no request that still counts.
use a2a_broker.Prelude.{
  ℕ, ◌≤◌, ◌==◌, ◌&&◌, Bool, List, [], ◌∷◌, ◌++◌, String, length, filter, leb, ltb, if◌then◌else◌,
}
use a2a_broker.RateLimit.{Request, Event, request, look, in_window}

-- The times of a key's requests in a log.
abbrev pub times : String → List Request → List ℕ
times key [] = []
times key (r ∷ rs) = let rest = times key rs in if r.key == key then r.at ∷ rest else rest

-- A limiter that keeps the whole log: it lets a request through while fewer than `limit` requests of its
-- key are in the window that ends with it.
unfoldable pub admit : ℕ → ℕ → List Request → List Event → List Request
admit limit window log [] = log
admit limit window log (request r ∷ events) =
    let passes = ltb (length (filter (in_window window r.at) (times r.key log))) limit in
    admit limit window (if passes then log ++ r ∷ [] else log) events
admit limit window log (look now top_keys ∷ events) = admit limit window log events

abbrev pub time_of : Event → ℕ
time_of (request r) = r.at
time_of (look now top_keys) = now

-- The events come in the order of time.
abbrev pub IsTimely : ℕ → List Event → Type 0
IsTimely now [] = Unit
IsTimely now (e ∷ events) = (now ≤ time_of e) × IsTimely (time_of e) events

-- The time lies in the window of the given length that ends at a time.
abbrev pub within : ℕ → ℕ → ℕ → Bool
within window end at = leb at end && in_window window end at
