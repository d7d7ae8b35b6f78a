-- ===== src/TerminalOutbox/Pages.antt =====
-- What a limit leaves of the records to replay and of the new ones, and which records stand up to a cursor.
use a2a_broker.Prelude.{
  ℕ, zero, suc, ◌+◌, ◌≡◌, refl, sym, ap, ◌∙◌, subst, String, Bool, true, false, List, [], ◌∷◌, ◌++◌,
  Option, none, some, ◌⊎◌, inl, inr, take, drop, length, one_of, ◌==◌, if◌then◌else◌, Bool-cases,
  arith, or_else,
}
use mathlib.Core.List.{append-nil}
use a2a_broker.TerminalOutbox.Types.{OutboxEvent}
use a2a_broker.TerminalOutbox.Outbox.{find_from}
use a2a_broker.TerminalOutbox.Cursor.{apply_limit}
use a2a_broker.TerminalOutbox.Places.{ids, take-drop}

-- `es` is cut from `old` and then `later` under a limit: nothing later comes while something old waits,
-- and the limit is reached unless nothing is left.
pub record Cut (limit : Option ℕ) (old later es : List OutboxEvent) : Type 0 where
  pub replayed : List OutboxEvent
  pub waiting : List OutboxEvent
  pub fresh : List OutboxEvent
  pub rest : List OutboxEvent
  pub returned : es ≡ replayed ++ fresh
  pub replays : replayed ++ waiting ≡ old
  pub continued : fresh ++ rest ≡ later
  pub in_turn : (waiting ≡ []) ⊎ (fresh ≡ [])
  pub full : ((waiting ≡ []) × (rest ≡ [])) ⊎ (limit ≡ some (length es))

take-full : (n : ℕ) (es : List OutboxEvent) → (drop n es ≡ []) ⊎ (n ≡ length (take n es))
take-full zero es = inr refl
take-full (suc n) [] = inl refl
take-full (suc n) (x ∷ es) = elim (take-full n es) [
  | inl all ↦ inl all
  | inr enough ↦ inr (ap suc enough)
]

take-Cut : (n : ℕ) (old later : List OutboxEvent) → Cut (some n) old later (take n (old ++ later))
take-Cut zero old later = record {
  replayed = [];
  waiting = old;
  fresh = [];
  rest = later;
  returned = refl;
  replays = refl;
  continued = refl;
  in_turn = inr refl;
  full = inr refl;
}
take-Cut (suc n) [] later = record {
  replayed = [];
  waiting = [];
  fresh = take (suc n) later;
  rest = drop (suc n) later;
  returned = refl;
  replays = refl;
  continued = take-drop (suc n) later;
  in_turn = inl refl;
  full = elim (take-full (suc n) later) [
    | inl all ↦ inl (refl, all)
    | inr enough ↦ inr (ap some enough)
  ];
}
take-Cut (suc n) (x ∷ old) later =
    let c = take-Cut n old later in
    record {
      replayed = x ∷ c.replayed;
      waiting = c.waiting;
      fresh = c.fresh;
      rest = c.rest;
      returned = ap (λ l. x ∷ l) c.returned;
      replays = ap (λ l. x ∷ l) c.replays;
      continued = c.continued;
      in_turn = c.in_turn;
      full = elim c.full [
        | inl all ↦ inl all
        | inr enough ↦ inr (ap (λ o. some (suc (or_else o 0))) enough)
      ];
    }

pub limit-Cut :
    (limit : Option ℕ) (old later : List OutboxEvent)
    → Cut limit old later (apply_limit (old ++ later) limit)
unfolding apply_limit
limit-Cut none old later = record {
  replayed = old;
  waiting = [];
  fresh = later;
  rest = [];
  returned = refl;
  replays = append-nil old;
  continued = append-nil later;
  in_turn = inl refl;
  full = inl (refl, refl);
}
limit-Cut (some n) old later = take-Cut n old later

-- The records up to the one with an id, itself included; none where no record has the id.
unfoldable pub through : String → List OutboxEvent → List OutboxEvent
through id [] = []
through id (e ∷ es) =
    let rest = through id es in
    if e.id == id then e ∷ [] else if one_of (ids es) id then e ∷ rest else []

-- The records up to a cursor. An empty cursor is none.
unfoldable pub up_to : Option String → List OutboxEvent → List OutboxEvent
unfolding through
up_to none es = []
up_to (some id) es = if id == "" then [] else through id es

pub through-missing :
    (n : ℕ) (id : String) (es : List OutboxEvent)
    → find_from n id es ≡ none
    → (one_of (ids es) id ≡ false) × (through id es ≡ [])
unfolding find_from through
through-missing n id [] e = (refl, refl)
through-missing n id (x ∷ es) e = elim (Bool-cases (x.id == id)) [
  | inl same ↦ absurd (ground (arith, same, e))
  | inr other ↦
      let (absent, empty) = through-missing (n + 1) id es (ground (arith, other, e)) in
      (rw (other) absent, rw (other, absent) refl)
]

pub through-found :
    (n : ℕ) (id : String) (es : List OutboxEvent) (place : ℕ × OutboxEvent)
    → find_from n id es ≡ some place
    → (k : ℕ) × (place.0 ≡ n + k) × (one_of (ids es) id ≡ true) × (take (suc k) es ≡ through id es)
unfolding find_from through
through-found n id [] place e = absurd (cc (e))
through-found n id (x ∷ es) place e =
    let step : Bool → Option (ℕ × OutboxEvent) =
      λ b. if b then some (n, x) else find_from (n + 1) id es in
    elim (Bool-cases (x.id == id)) [
      | inl same ↦
          let here : (n, x) ≡ place =
            ap (λ o. or_else o place) (subst (λ b. step b ≡ some place) same e) in
          (
            0,
            ap (λ (p : ℕ × OutboxEvent). p.0) (sym here) ∙ omega arith,
            rw same refl,
            rw same refl,
          )
      | inr other ↦
          let (k, at, there, cut) =
            through-found (n + 1) id es place (subst (λ b. step b ≡ some place) other e) in
          (suc k, omega (arith, at), rw other there, rw (other, there) (ap (λ l. x ∷ l) cut))
    ]
