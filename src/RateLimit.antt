-- ===== src/RateLimit.antt =====
-- src/core/request-security.ts, `InMemoryRateLimiter`: at most so many requests of a key in a sliding
-- window. Times are numbers of milliseconds, and `value > nowMs - windowMs` is written with a sum.
pub mod Spec
pub mod Window
pub mod Snapshots
pub mod Bounds
mod Examples
use a2a_broker.Prelude.{
  ℕ, ◌+◌, ◌-◌, ◌/◌, max, String, Bool, List, [], ◌∷◌, ◌++◌, Option, none, some, or_else, ltb, leb,
  length, filter, take, ◌==◌, ◌||◌, ◌&&◌, not, if◌then◌else◌,
}
use a2a_broker.Prelude.Dict
use a2a_broker.Prelude.Dict.{Dict}

pub record Limiter : Type 0 where
  pub buckets : Dict (List ℕ)
  pub allowed_requests : ℕ
  pub denied_requests : ℕ
  pub max_requests : ℕ
  pub window_ms : ℕ

pub record Decision : Type 0 where
  pub key : String
  pub limit : ℕ
  pub remaining : ℕ
  pub reset_at : ℕ
  pub retry_after : ℕ
  pub allowed : Bool

unfoldable pub new : ℕ → ℕ → Limiter
new max_requests window = record {
  buckets = [];
  allowed_requests = 0;
  denied_requests = 0;
  max_requests = max_requests;
  window_ms = window;
}

-- `value > windowStart`
abbrev pub in_window : ℕ → ℕ → ℕ → Bool
in_window window now value = ltb now (value + window)

abbrev pub first_or : List ℕ → ℕ → ℕ
first_or [] d = d
first_or (t ∷ ts) d = t

abbrev pub bucket : Limiter → String → List ℕ
bucket l key = or_else (Dict.get l.buckets key) []

-- `check`
unfoldable pub check : Limiter → String → ℕ → Decision × Limiter
check l key now =
    let recent : List ℕ = filter (in_window l.window_ms now) (bucket l key) in
    let allowed = ltb (length recent) l.max_requests in
    let timestamps : List ℕ = if allowed then recent ++ now ∷ [] else recent in
    let reset : ℕ = first_or timestamps now + l.window_ms in
    (
      record {
        key = key;
        limit = l.max_requests;
        remaining = l.max_requests - length timestamps;
        reset_at = reset;
        retry_after = max 1 ((reset - now + 999) / 1000);
        allowed = allowed;
      },
      record l {
        buckets = Dict.set l.buckets key timestamps;
        allowed_requests = if allowed then l.allowed_requests + 1 else l.allowed_requests;
        denied_requests = if allowed then l.denied_requests else l.denied_requests + 1;
      },
    )

-- One line of the snapshot.
pub record Busy : Type 0 where
  pub key : String
  pub in_window : ℕ
  pub remaining : ℕ
  pub reset_at : ℕ

pub record Pressure : Type 0 where
  pub limit : ℕ
  pub window_ms : ℕ
  pub active_keys : ℕ
  pub allowed_requests : ℕ
  pub denied_requests : ℕ
  pub busiest : List Busy

-- A key whose window is empty is deleted, another one keeps its window.
abbrev pub store_times : String → List ℕ → Dict (List ℕ) → Dict (List ℕ)
store_times key [] d = Dict.remove d key
store_times key (t ∷ ts) d = Dict.set d key (t ∷ ts)

-- The changes of `snapshot`, entry by entry of the map as it was.
abbrev pub prune : ℕ → ℕ → Dict (List ℕ) → Dict (List ℕ) → Dict (List ℕ)
prune window now [] d = d
prune window now ((key, ts) ∷ entries) d =
    prune window now entries (store_times key (filter (in_window window now) ts) d)

abbrev pub busy_of : Limiter → String → List ℕ → List Busy
busy_of l key [] = []
busy_of l key (t ∷ ts) =
    record {
      key = key;
      in_window = length (t ∷ ts);
      remaining = l.max_requests - length (t ∷ ts);
      reset_at = t + l.window_ms;
    }
    ∷ []

abbrev pub active_entries : Limiter → ℕ → Dict (List ℕ) → List Busy
active_entries l now [] = []
active_entries l now ((key, ts) ∷ entries) =
    busy_of l key (filter (in_window l.window_ms now) ts) ++ active_entries l now entries

-- The busier key stands first; `not_after a b` is `a.localeCompare(b) <= 0`.
abbrev pub insert_busy : (String → String → Bool) → Busy → List Busy → List Busy
insert_busy not_after a [] = a ∷ []
insert_busy not_after a (b ∷ bs) =
    let rest = insert_busy not_after a bs in
    if ltb b.in_window a.in_window || leb b.in_window a.in_window && not_after a.key b.key
    then a ∷ b ∷ bs
    else b ∷ rest

abbrev pub sorted : (String → String → Bool) → List Busy → List Busy
sorted not_after [] = []
sorted not_after (a ∷ as_before) = insert_busy not_after a (sorted not_after as_before)

-- `snapshot`
unfoldable pub snapshot : (String → String → Bool) → Limiter → ℕ → ℕ → Pressure × Limiter
snapshot not_after l now top_keys =
    let active : List Busy = sorted not_after (active_entries l now l.buckets) in
    (
      record {
        limit = l.max_requests;
        window_ms = l.window_ms;
        active_keys = length active;
        allowed_requests = l.allowed_requests;
        denied_requests = l.denied_requests;
        busiest = take top_keys active;
      },
      record l { buckets = prune l.window_ms now l.buckets l.buckets },
    )

pub record Request : Type 0 where
  pub key : String
  pub at : ℕ

-- What comes to a limiter: a request, or the operator's look at it.
pub data Event : Type 0 where
  request : Request → Event
  look : ℕ → ℕ → Event

module _ (not_after : String → String → Bool) where
  -- The requests that a limiter lets through, in order, after those that it has let through before.
  unfoldable pub run : Limiter → List Request → List Event → List Request
  run l log [] = log
  run l log (request r ∷ events) =
      let (d, l') = check l r.key r.at in run l' (if d.allowed then log ++ r ∷ [] else log) events
  run l log (look now top_keys ∷ events) = run (snapshot not_after l now top_keys).1 log events
