-- ===== src/Prelude/Dict.antt =====
-- JavaScript's `Map` with string keys: iteration is in the order of first insertion, and `set` on a
-- key that is there keeps its place.
use a2a_broker.Prelude.Tests.{if◌then◌else◌, Bool-cases}
use Prim.Native.String.{String}
use mathlib.Core.Path.{◌≡◌, refl, sym, ◌∙◌, subst, ap}
use mathlib.Core.Bool.{true, false}
use mathlib.Core.Logic.{inl, inr}
use mathlib.Core.Option.{Option, none, some}
use mathlib.Core.List.{List, [], ◌∷◌, Memᴰ}
use native.Mathlib.Omega.{arith}
use text.Mathlib.Text.{◌==◌}
use text.Mathlib.TextEquality.{eq_iff}
use text.Mathlib.TextPositions.{eq_refl}

abbrev pub Dict {ℓ} : Type ℓ → Type ℓ
Dict V = List (String × V)

module _ {ℓ} {V : Type ℓ} where
  -- `m.get(k)`
  unfoldable pub get : Dict V → String → Option V
  get [] k = none
  get ((j, v) ∷ m) k = if j == k then some v else get m k

  -- `m.set(k, v)`
  unfoldable pub set : Dict V → String → V → Dict V
  set [] k v = (k, v) ∷ []
  set ((j, w) ∷ m) k v = if j == k then (j, v) ∷ m else (j, w) ∷ set m k v

  -- `m.delete(k)`
  unfoldable pub remove : Dict V → String → Dict V
  remove [] k = []
  remove ((j, w) ∷ m) k = let rest = remove m k in if j == k then rest else (j, w) ∷ rest

  -- `[...m.values()]`
  abbrev pub values : Dict V → List V
  values [] = []
  values ((j, v) ∷ m) = v ∷ values m

  -- `[...m.keys()]`
  abbrev pub keys : Dict V → List String
  keys [] = []
  keys ((j, v) ∷ m) = j ∷ keys m

  pub get-set :
      (m : Dict V) (k j : String) (v : V) → get (set m k v) j ≡ (if k == j then some v else get m j)
  unfolding get set
  get-set [] k j v = refl
  get-set ((i, w) ∷ m) k j v = ground (arith, eq_iff k j, eq_iff i k, eq_iff i j, get-set m k j v)

  pub set-set : (m : Dict V) (k : String) (v w : V) → set (set m k v) k w ≡ set m k w
  unfolding set
  set-set [] k v w = rw eq_refl
  set-set ((i, u) ∷ m) k v w = ground (arith, eq_iff i k, eq_refl i, set-set m k v w)

  pub get-set_same :
      (m : Dict V) (k j : String) (v : V) → k == j ≡ true → get (set m k v) j ≡ some v
  get-set_same m k j v same = get-set m k j v ∙ rw same

  pub get-set_other :
      (m : Dict V) (k j : String) (v : V) → k == j ≡ false → get (set m k v) j ≡ get m j
  get-set_other m k j v other = get-set m k j v ∙ rw other

  -- A property of every entry.
  abbrev pub Holds : (String → V → Type 0) → Dict V → Type ℓ
  Holds P m = (k : String) (v : V) → get m k ≡ some v → P k v

  pub Holds-set :
      (P : String → V → Type 0) (m : Dict V) (k : String) (v : V)
      → Holds P m
      → P k v
      → Holds P (set m k v)
  Holds-set P m k v h pv j w found = elim (Bool-cases (k == j)) [
    | inl same ↦
        let stored : v ≡ w = cc (sym (get-set_same m k j v same) ∙ found) in
        subst (λ x. P j x) stored (subst (λ i. P i v) ((eq_iff k j).0 same) pv)
    | inr other ↦ h j w (sym (get-set_other m k j v other) ∙ found)
  ]

  -- Each key stands once, as in every `Map`.
  abbrev pub IsUnique : Dict V → Type ℓ
  IsUnique [] = Unit
  IsUnique ((j, v) ∷ m) = (get m j ≡ none) × IsUnique m

  pub set-IsUnique : (m : Dict V) (k : String) (v : V) → IsUnique m → IsUnique (set m k v)
  unfolding set get
  set-IsUnique [] k v u = (refl, tt)
  set-IsUnique ((j, w) ∷ m) k v u = elim (Bool-cases (j == k)) [
    | inl same ↦ rw same u
    | inr other ↦ rw other (
      get-set_other m k j v (ground (arith, eq_iff j k, eq_iff k j, other)) ∙ u.0,
      set-IsUnique m k v u.1,
    )
  ]

  pub values-get :
      (m : Dict V) (v : V) → IsUnique m → Memᴰ v (values m) → (k : String) × (get m k ≡ some v)
  unfolding get
  values-get [] v u h = elim h [ ]
  values-get ((j, w) ∷ m) v u (Memᴰ.head e) = (j, rw eq_refl (ap some (sym e)))
  values-get ((j, w) ∷ m) v u (Memᴰ.tail h) =
      let (k, found) = values-get m v u.1 h in (k, ground (arith, eq_iff j k, found, u.0))

  pub get-values : (m : Dict V) (k : String) (v : V) → get m k ≡ some v → Memᴰ v (values m)
  unfolding get
  get-values [] k v e = absurd (cc (e))
  get-values ((j, w) ∷ m) k v e = elim (Bool-cases (j == k)) [
    | inl same ↦ Memᴰ.head (ground (arith, same, e))
    | inr other ↦ Memᴰ.tail (get-values m k v (ground (arith, other, e)))
  ]

  pub Holds-nil : (P : String → V → Type 0) → Holds P []
  unfolding get
  Holds-nil P k v e = absurd (cc (e))

  pub Holds-cons :
      (P : String → V → Type 0) (j : String) (w : V) (m : Dict V)
      → P j w
      → Holds P m
      → Holds P ((j, w) ∷ m)
  unfolding get
  Holds-cons P j w m pw h k v e = elim (Bool-cases (j == k)) [
    | inl same ↦
        let is : w ≡ v = cc (subst (λ b. (if b then some w else get m k) ≡ some v) same e) in
        subst (λ x. P k x) is (subst (λ i. P i w) ((eq_iff j k).0 same) pw)
    | inr other ↦ h k v (subst (λ b. (if b then some w else get m k) ≡ some v) other e)
  ]

  pub get-remove :
      (m : Dict V) (k j : String) → get (remove m k) j ≡ (if k == j then none else get m j)
  unfolding get remove
  get-remove [] k j = ground arith
  get-remove ((i, w) ∷ m) k j = ground (arith, eq_iff k j, eq_iff i k, eq_iff i j, get-remove m k j)

  pub remove-IsUnique : (m : Dict V) (k : String) → IsUnique m → IsUnique (remove m k)
  unfolding remove
  remove-IsUnique [] k u = tt
  remove-IsUnique ((j, w) ∷ m) k u = elim (Bool-cases (j == k)) [
    | inl same ↦ rw same (remove-IsUnique m k u.1)
    | inr other ↦
        let free : get (remove m k) j ≡ none =
          get-remove m k j ∙ ground (arith, eq_iff k j, eq_iff j k, other, u.0) in
        rw other (free, remove-IsUnique m k u.1)
  ]

  pub entry-get : (m : Dict V) (k : String) (v : V) → IsUnique m → Memᴰ (k, v) m → get m k ≡ some v
  unfolding get
  entry-get [] k v u h = elim h [ ]
  entry-get ((j, w) ∷ m) k v u (Memᴰ.head e) =
      let same : k ≡ j = ap (λ (x : String × V). x.0) e in
      let value : v ≡ w = ap (λ (x : String × V). x.1) e in rw (same, value, eq_refl j) refl
  entry-get ((j, w) ∷ m) k v u (Memᴰ.tail h) =
      ground (arith, eq_iff j k, entry-get m k v u.1 h, u.0)
