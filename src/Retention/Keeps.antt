-- ===== src/Retention/Keeps.antt =====
-- What the selection of records keeps.
use a2a_broker.Prelude.{
  ℕ, ◌≡◌, refl, subst, String, Bool, true, false, not, ◌||◌, List, [], ◌∷◌, ◌++◌, Option, none,
  some, arith, one_of, ◌==◌, if◌then◌else◌, eq_refl, eq_iff, Bool-cases, inl, inr,
}
use mathlib.Core.List.{Memᴰ}
use a2a_broker.Prelude.Dict
use a2a_broker.Prelude.Dict.{Dict}
use a2a_broker.Retention.Selection.{split, select_retained_ids, is_recent, is_kept, candidate_of}
use a2a_broker.Retention.Policy.{prune_map_entries, collect, from_record}

pub one_of-append :
    (xs ys : List String) (a : String) → one_of (xs ++ ys) a ≡ (one_of xs a || one_of ys a)
one_of-append [] ys a = refl
one_of-append (x ∷ xs) ys a = ground (arith, one_of-append xs ys a)

pub one_of-append_left :
    (xs ys : List String) (a : String) → one_of xs a ≡ true → one_of (xs ++ ys) a ≡ true
one_of-append_left xs ys a h = ground (arith, one_of-append xs ys a)

pub one_of-append_right :
    (xs ys : List String) (a : String) → one_of ys a ≡ true → one_of (xs ++ ys) a ≡ true
one_of-append_right xs ys a h = ground (arith, one_of-append xs ys a)

pub get-prune {ℓ} :
    {V : Type ℓ} (m : Dict V) (ids : List String) (k : String)
    → Dict.get (prune_map_entries m ids) k ≡ (if one_of ids k then Dict.get m k else none)
unfolding Dict.get
get-prune [] ids k = ground arith
get-prune ((j, v) ∷ m) ids k = ground (arith, eq_iff j k, get-prune m ids k)

pub collect-gives {ℓ} :
    {V : Type ℓ} (f : V → List String) (m : Dict V) (ids : List String) (k a : String) (v : V)
    → one_of ids k ≡ true
    → Dict.get m k ≡ some v
    → one_of (f v) a ≡ true
    → one_of (collect f m ids) a ≡ true
collect-gives f m [] k a v h e g = absurd (cc (h))
collect-gives f m (id ∷ ids) k a v h e g = elim (Bool-cases (id == k)) [
  | inl same ↦
      one_of-append_left (from_record f (Dict.get m id)) (collect f m ids) a
        (rw ((eq_iff id k).0 same, e) g)
  | inr other ↦
      one_of-append_right (from_record f (Dict.get m id)) (collect f m ids) a
        (collect-gives f m ids k a v (ground (arith, other, h)) e g)
]

module _ {T : Type 0} (is_terminal : T → Bool) (id_of : T → String) (time_of : T → Option ℕ)
    (now retention : ℕ) where
  pub split-kept :
      (kept : List String) (r : T) (rs : List T)
      → is_kept is_terminal id_of time_of now retention kept r ≡ true
      → split is_terminal id_of time_of now retention kept (r ∷ rs)
        ≡ split is_terminal id_of time_of now retention (id_of r ∷ kept) rs
  unfolding split
  split-kept kept r rs h = rw (h, split) refl

  pub split-dropped :
      (kept : List String) (r : T) (rs : List T)
      → is_kept is_terminal id_of time_of now retention kept r ≡ false
      → split is_terminal id_of time_of now retention kept (r ∷ rs) ≡ (
        (split is_terminal id_of time_of now retention kept rs).0,
        candidate_of is_terminal id_of time_of now retention r
            ∷ (split is_terminal id_of time_of now retention kept rs).1,
      )
  unfolding split
  split-dropped kept r rs h = rw (h, split) refl

  pub split-grows :
      (kept : List String) (rs : List T) (a : String)
      → one_of kept a ≡ true
      → one_of (split is_terminal id_of time_of now retention kept rs).0 a ≡ true
  unfolding split
  split-grows kept [] a h = h
  split-grows kept (r ∷ rs) a h =
      elim (Bool-cases (is_kept is_terminal id_of time_of now retention kept r)) [
        | inl keeps ↦
            rw (split-kept kept r rs keeps) (split-grows (id_of r ∷ kept) rs a (ground (arith, h)))
        | inr drops ↦ rw (split-dropped kept r rs drops) (split-grows kept rs a h)
      ]

  pub split-keeps :
      (kept : List String) (rs : List T) (r : T)
      → Memᴰ r rs
      → not (is_terminal r) || is_recent now retention (time_of r) ≡ true
      → one_of (split is_terminal id_of time_of now retention kept rs).0 (id_of r) ≡ true
  unfolding split
  split-keeps kept [] r member h = elim member [ ]
  split-keeps kept (x ∷ rs) r (Memᴰ.head e) h =
      let keeps : is_kept is_terminal id_of time_of now retention kept x ≡ true =
        subst (λ y. is_kept is_terminal id_of time_of now retention kept y ≡ true) e
          (unfold is_kept in ground (arith, h)) in
      rw (split-kept kept x rs keeps, e)
        (split-grows (id_of x ∷ kept) rs (id_of x) (ground (arith, eq_refl (id_of x))))
  split-keeps kept (x ∷ rs) r (Memᴰ.tail member) h =
      elim (Bool-cases (is_kept is_terminal id_of time_of now retention kept x)) [
        | inl keeps ↦ rw (split-kept kept x rs keeps) (split-keeps (id_of x ∷ kept) rs r member h)
        | inr drops ↦ rw (split-dropped kept x rs drops) (split-keeps kept rs r member h)
      ]

  module _ (not_after : String → String → Bool) (protected : List String) (limit : ℕ)
      (records : List T) where
    pub select-protects :
        (a : String)
        → one_of protected a ≡ true
        → one_of
            (select_retained_ids is_terminal id_of time_of now retention not_after protected limit
              records)
            a
          ≡ true
    unfolding select_retained_ids
    select-protects a h = one_of-append_left _ _ a (split-grows protected records a h)

    pub select-keeps :
        (r : T)
        → Memᴰ r records
        → not (is_terminal r) || is_recent now retention (time_of r) ≡ true
        → one_of
            (select_retained_ids is_terminal id_of time_of now retention not_after protected limit
              records)
            (id_of r)
          ≡ true
    unfolding select_retained_ids
    select-keeps r member h =
        one_of-append_left _ _ (id_of r) (split-keeps protected records r member h)
