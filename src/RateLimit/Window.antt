-- ===== src/RateLimit/Window.antt =====
-- The limiter keeps only the window, and decides as if it kept everything.
use a2a_broker.Prelude.Dict.{Dict}
use a2a_broker.Prelude.{
  true, false, inl, inr, eq_iff, Bool-cases, ◌∙◌, ap, sym, ℕ, ◌≤◌, ◌≡◌, refl, ◌==◌, Bool, List, [],
  ◌∷◌, ◌++◌, String, filter, if◌then◌else◌, arith, ltb, length,
}
use a2a_broker.Prelude.Dict
use mathlib.Core.List.{append-nil}
use a2a_broker.RateLimit.{Limiter, Request, in_window, bucket, check}
use a2a_broker.RateLimit.Spec.{times}

pub filter-append {ℓ} :
    {A : Type ℓ} (p : A → Bool) (xs ys : List A) → filter p (xs ++ ys) ≡ filter p xs ++ filter p ys
filter-append p [] ys = refl
filter-append p (x ∷ xs) ys = ground (arith, filter-append p xs ys)

pub times-append :
    (key : String) (log : List Request) (r : Request)
    → times key (log ++ r ∷ []) ≡ times key log ++ (if r.key == key then r.at ∷ [] else [])
times-append key [] r = ground arith
times-append key (s ∷ log) r = ground (arith, times-append key log r)

-- A later window drops what an earlier one has dropped.
pub filter_later :
    (window now later : ℕ) (ts : List ℕ)
    → now ≤ later
    → filter (in_window window later) (filter (in_window window now) ts)
      ≡ filter (in_window window later) ts
filter_later window now later [] h = refl
filter_later window now later (t ∷ ts) h = ground (arith, filter_later window now later ts)

-- From a time on, the limiter's buckets show the same as the log.
pub record Agrees (now : ℕ) (l : Limiter) (log : List Request) : Type 0 where
  pub unique : Dict.IsUnique l.buckets
  pub shows :
      (key : String) (later : ℕ)
      → now ≤ later
      → filter (in_window l.window_ms later) (bucket l key)
        ≡ filter (in_window l.window_ms later) (times key log)

pub allowed-Agrees :
    (l : Limiter) (log : List Request) (now : ℕ) (r : Request)
    → now ≤ r.at
    → Agrees now l log
    → (check l r.key r.at).0.allowed
      ≡ ltb (length (filter (in_window l.window_ms r.at) (times r.key log))) l.max_requests
unfolding check
allowed-Agrees l log now r h a = ap (λ ts. ltb (length ts) l.max_requests) (a.shows r.key r.at h)

module _ (window later : ℕ) (log : List Request) (r : Request) (late : r.at ≤ later) where
  -- What a key's list of times shows at the later time.
  shown : List ℕ → List ℕ
  shown = filter (in_window window later)

  -- A request of another key leaves the times of a key alone, one of its own stands last.
  shown-times :
      (key : String) (passes mine : Bool) (own other : List ℕ)
      → r.key == key ≡ mine
      → shown (if mine then own else other) ≡ shown (times key log)
      → shown (
          if mine
          then (if passes
              then filter (in_window window r.at) own ++ r.at ∷ []
              else filter (in_window window r.at) own)
          else other)
        ≡ shown (times key (if passes then log ++ r ∷ [] else log))
  unfolding shown
  shown-times key false true own other e same = filter_later window r.at later own late ∙ same
  shown-times key false false own other e same = same
  shown-times key true false own other e same =
      same
      ∙ ap (filter (in_window window later)) (sym (times-append key log r ∙ rw e (append-nil _)))
  shown-times key true true own other e same =
      filter-append (in_window window later) (filter (in_window window r.at) own) (r.at ∷ [])
      ∙ ap (λ (ts : List ℕ). ts ++ filter (in_window window later) (r.at ∷ []))
          (filter_later window r.at later own late ∙ same)
      ∙ sym (filter-append (in_window window later) (times key log) (r.at ∷ []))
      ∙ ap (filter (in_window window later)) (sym (times-append key log r ∙ rw e refl))

pub check-Agrees :
    (l : Limiter) (log : List Request) (now : ℕ) (r : Request)
    → now ≤ r.at
    → Agrees now l log
    → Agrees r.at
        (check l r.key r.at).1
        (if (check l r.key r.at).0.allowed then log ++ r ∷ [] else log)
unfolding check shown
check-Agrees l log now r h a = record {
  unique =
      Dict.set-IsUnique l.buckets r.key
        (if (check l r.key r.at).0.allowed
          then filter (in_window l.window_ms r.at) (bucket l r.key) ++ r.at ∷ []
          else filter (in_window l.window_ms r.at) (bucket l r.key))
        a.unique;
  shows = λ key later late.
      let passes : Bool = (check l r.key r.at).0.allowed in
      let recent : List ℕ = filter (in_window l.window_ms r.at) (bucket l r.key) in
      let stored : List ℕ = if passes then recent ++ r.at ∷ [] else recent in
      let same : filter (in_window l.window_ms later) (bucket l key)
          ≡ filter (in_window l.window_ms later) (times key log) =
        a.shows key later (omega arith) in
      elim (Bool-cases (r.key == key)) [
        | inl e ↦ rw (Dict.get-set_same l.buckets r.key key stored e) (
            (shown-times l.window_ms later log r late key passes true (bucket l r.key)
              (bucket l key) e (rw ((eq_iff r.key key).0 e) same)))
        | inr e ↦ rw (Dict.get-set_other l.buckets r.key key stored e) (
            shown-times l.window_ms later log r late key passes false (bucket l r.key)
              (bucket l key) e same)
      ];
}
