-- ===== src/TerminalOutbox/Places.antt =====
-- Where records stand in the array of src/core/terminal-event-outbox.ts.
use mathlib.Core.Option.{none}
use Prim.Native.Nat.{zero}
use mathlib.Core.List.{Memᴰ, []}
use mathlib.Core.List.Memᴰ.{cases_cons}
use a2a_broker.TerminalOutbox.Types.{OutboxEvent}
use a2a_broker.TerminalOutbox.Outbox.{Outbox, find_from}
use a2a_broker.TerminalOutbox.Cursor.{subscribe, places, last, apply_limit, index_of_id}
use a2a_broker.Prelude.{
  ℕ, List, ◌++◌, String, ◌≡◌, ◌∷◌, map, one_of, some, false, ◌+◌, ◌<◌, length, Bool-cases, eq_refl,
  ◌==◌, inl, arith, inr, ap, Bool, eq_iff, suc, Option, ◌∙◌, if◌then◌else◌, or_else, subst, sym,
  drop, take, ◌⊎◌, ltb, filter, ◌≤◌, refl, Option-cases, true,
}

abbrev pub ids : List OutboxEvent → List String
ids = map (λ e. e.id)

-- No id stands twice.
abbrev pub IsDistinct : List String → Type 0
IsDistinct [] = Unit
IsDistinct (s ∷ ss) = (one_of ss s ≡ false) × IsDistinct ss

-- Where the record with an id stands.
pub find-splits :
    (n : ℕ) (id : String) (es : List OutboxEvent) (place : ℕ × OutboxEvent)
    → find_from n id es ≡ some place
    → (before after : List OutboxEvent) × (es ≡ before ++ place.1 ∷ after)
      × (place.0 ≡ n + length before)
unfolding find_from
find-splits n id [] place e = absurd (cc (e))
find-splits n id (x ∷ es) place e =
    let step : Bool → Option (ℕ × OutboxEvent) =
      λ b. if b then some (n, x) else find_from (n + 1) id es in
    elim (Bool-cases (x.id == id)) [
      | inl same ↦
          let here : (n, x) ≡ place =
            ap (λ o. or_else o place) (subst (λ b. step b ≡ some place) same e) in
          (
            [],
            es,
            ap (λ (p : ℕ × OutboxEvent). p.1 ∷ es) here,
            ap (λ (p : ℕ × OutboxEvent). p.0) (sym here) ∙ omega arith,
          )
      | inr other ↦
          let (before, after, split, at) =
            find-splits (n + 1) id es place (subst (λ b. step b ≡ some place) other e) in
          (x ∷ before, after, ap (λ l. x ∷ l) split, omega (arith, at))
    ]

-- A record of the front is found in it.
pub find-front :
    (n : ℕ) (e : OutboxEvent) (front rest : List OutboxEvent)
    → Memᴰ e front
    → (i : ℕ) × (found : OutboxEvent) × (find_from n e.id (front ++ rest) ≡ some (i, found))
      × (i < n + length front)
unfolding find_from
find-front n e [] rest m = elim m [ ]
find-front n e (x ∷ front) rest m = elim (Bool-cases (x.id == e.id)) [
  | inl same ↦ (n, x, rw same refl, omega arith)
  | inr other ↦ elim (cases_cons m) [
    | inl here ↦
        absurd (ground (arith, eq_iff x.id e.id, other, ap (λ (w : OutboxEvent). w.id) here))
    | inr later ↦
        let (i, found, e', few) = find-front (n + 1) e front rest later in
        (i, found, rw other e', omega (arith, few))
  ]
]

distinct-front :
    (x : OutboxEvent) (front : List OutboxEvent) (e : OutboxEvent) (rest : List OutboxEvent)
    → one_of (ids (front ++ e ∷ rest)) x.id ≡ false
    → x.id == e.id ≡ false
distinct-front x [] e rest h = ground (arith, eq_iff e.id x.id, eq_iff x.id e.id, h)
distinct-front x (y ∷ front) e rest h = distinct-front x front e rest (ground (arith, h))

-- A record with an id of its own is found where it stands.
pub find-own :
    (n : ℕ) (front : List OutboxEvent) (e : OutboxEvent) (rest : List OutboxEvent)
    → IsDistinct (ids (front ++ e ∷ rest))
    → find_from n e.id (front ++ e ∷ rest) ≡ some (n + length front, e)
unfolding find_from
find-own n [] e rest d =
    let same : n ≡ n + 0 = omega arith in rw eq_refl (ap (λ k. some (k, e)) same)
find-own n (x ∷ front) e rest d =
    let shift : (n + 1) + length front ≡ n + suc (length front) = omega arith in
    rw (distinct-front x front e rest d.0)
      (find-own (n + 1) front e rest d.1 ∙ ap (λ k. some (k, e)) shift)

pub drop-past :
    (n : ℕ) (front : List OutboxEvent) (e : OutboxEvent) (rest : List OutboxEvent)
    → n ≡ suc (length front)
    → drop n (front ++ e ∷ rest) ≡ rest
drop-past n [] e rest h = rw h refl
drop-past n (x ∷ front) e rest h = rw h (drop-past (suc (length front)) front e rest refl)

pub take-past :
    (n : ℕ) (front : List OutboxEvent) (e : OutboxEvent) (rest : List OutboxEvent)
    → n ≡ suc (length front)
    → take n (front ++ e ∷ rest) ≡ front ++ e ∷ []
take-past n [] e rest h = rw h refl
take-past n (x ∷ front) e rest h =
    rw h (ap (λ l. x ∷ l) (take-past (suc (length front)) front e rest refl))

pub take-drop : (n : ℕ) (es : List OutboxEvent) → take n es ++ drop n es ≡ es
take-drop zero es = refl
take-drop (suc n) [] = refl
take-drop (suc n) (x ∷ es) = ap (λ l. x ∷ l) (take-drop n es)

pub ends :
    (es : List OutboxEvent)
    → (es ≡ []) ⊎ ((front : List OutboxEvent) × (e : OutboxEvent) × (es ≡ front ++ e ∷ []))
ends [] = inl refl
ends (x ∷ es) = elim (ends es) [
  | inl nothing ↦ inr ([], x, ap (λ l. x ∷ l) nothing)
  | inr (front, e, split) ↦ inr (x ∷ front, e, ap (λ l. x ∷ l) split)
]

last-cons {ℓ} : {A : Type ℓ} (x y : A) (xs : List A) → last xs ≡ some y → last (x ∷ xs) ≡ some y
last-cons x y [] e = absurd (cc (e))
last-cons x y (z ∷ xs) e = e

pub last-end : (front : List OutboxEvent) (e : OutboxEvent) → last (front ++ e ∷ []) ≡ some e
last-end [] e = refl
last-end (x ∷ front) e = last-cons x e (front ++ e ∷ []) (last-end front e)

abbrev pub is_newer : ℕ → ℕ × OutboxEvent → Bool
is_newer i place = ltb i place.0

places-found :
    (all : List OutboxEvent) (e : OutboxEvent) (es : List OutboxEvent) (place : ℕ × OutboxEvent)
    → find_from 0 e.id all ≡ some place
    → places all (e ∷ es) ≡ place ∷ places all es
unfolding places
places-found all e es place found = rw (places, found) refl

places-missing :
    (all : List OutboxEvent) (e : OutboxEvent) (es : List OutboxEvent)
    → find_from 0 e.id all ≡ none
    → places all (e ∷ es) ≡ places all es
unfolding places
places-missing all e es missing = rw (places, missing) refl

pub newer-end :
    (all : List OutboxEvent) (i : ℕ) (es : List OutboxEvent) (e : OutboxEvent) (at : ℕ)
    → find_from 0 e.id all ≡ some (at, e)
    → ltb i at ≡ true
    → last (filter (is_newer i) (places all (es ++ e ∷ []))) ≡ some (at, e)
newer-end all i [] e at found later =
    rw (places-found all e [] (at, e) found) (unfold places in rw (filter, later) refl)
newer-end all i (x ∷ es) e at found later = elim (Option-cases (find_from 0 x.id all)) [
  | inl missing ↦
      rw (places-missing all x (es ++ e ∷ []) missing) (newer-end all i es e at found later)
  | inr (place, there) ↦
      rw (places-found all x (es ++ e ∷ []) place there) (elim (Bool-cases (ltb i place.0)) [
        | inl new ↦ rw new (
            last-cons place (at, e) (filter (is_newer i) (places all (es ++ e ∷ [])))
              (newer-end all i es e at found later))
        | inr old ↦ rw old (newer-end all i es e at found later)
      ])
]

pub none_newer :
    (front rest : List OutboxEvent) (i : ℕ) (es : List OutboxEvent)
    → length front ≤ i + 1
    → ((e : OutboxEvent) → Memᴰ e es → Memᴰ e front)
    → filter (is_newer i) (places (front ++ rest) es) ≡ []
none_newer front rest i [] few from = unfold places in refl
none_newer front rest i (x ∷ es) few from =
    let (at, found, there, before) = find-front 0 x front rest (from x (Memᴰ.head refl)) in
    let old : ltb i at ≡ false = ground (arith, before, few) in
    rw (places-found (front ++ rest) x es (at, found) there)
      (rw old (none_newer front rest i es few (λ e m. from e (Memᴰ.tail m))))

-- What a subscriber gets that goes on from a record.
pub subscribe-past :
    (o : Outbox) (front : List OutboxEvent) (e : OutboxEvent) (rest : List OutboxEvent)
    → o.events ≡ front ++ e ∷ rest
    → IsDistinct (ids o.events)
    → e.id == "" ≡ false
    → subscribe o (some e.id) none ≡ rest
unfolding subscribe index_of_id apply_limit
subscribe-past o front e rest split d named =
    let own : find_from 0 e.id o.events ≡ some (0 + length front, e) =
      subst (λ es. find_from 0 e.id es ≡ some (0 + length front, e)) (sym split)
        (find-own 0 front e rest (subst (λ es. IsDistinct (ids es)) split d)) in
    let next : (0 + length front) + 1 ≡ suc (length front) = omega arith in
    rw (named, own, split) (drop-past ((0 + length front) + 1) front e rest next)
