-- ===== src/Broker/Walks.antt =====
-- The measure and the invariant of the walk that cancels a task and the tasks below it.
use a2a_broker.Prelude.{
  ℕ, ◌+◌, ◌≤◌, ◌<◌, ◌≡◌, refl, sym, ◌∙◌, String, true, false, List, [], ◌∷◌, one_of, eq_iff, arith,
  Bool-cases, Option-cases, inl, inr, if◌then◌else◌, length, some, ap,
}
use a2a_broker.Prelude.Dict
use a2a_broker.Prelude.Dict.{Dict}
use a2a_broker.Broker.Types.{is_terminal, TaskRecord, canceled}
use a2a_broker.Broker.State.{Broker}
use a2a_broker.Broker.Cancel.{Walk, is_over}
use a2a_broker.Broker.Frame.{Frame-refl}
use a2a_broker.Broker.Lifecycle.{Turns, rest, IsValid, Turns-IsValid, Turns-terminal, Turns-trans}
use a2a_broker.Broker.Recovery.{Turns-absent}
use a2a_broker.Broker.Children.{IsChild, IsChild-before}

-- How many of the keys the walk has not visited.
unfoldable pub unvisited : List String → List String → ℕ
unvisited [] vs = 0
unvisited (k ∷ ks) vs = let others = unvisited ks vs in if one_of vs k then others else others + 1

pub unvisited-shrinks :
    (ks vs ws : List String)
    → ((k : String) → one_of vs k ≡ true → one_of ws k ≡ true)
    → unvisited ks ws ≤ unvisited ks vs
unfolding unvisited
unvisited-shrinks [] vs ws more = ground arith
unvisited-shrinks (k ∷ ks) vs ws more = ground (arith, unvisited-shrinks ks vs ws more, more k)

pub visits : (id k : String) (vs : List String) → one_of vs k ≡ true → one_of (id ∷ vs) k ≡ true
visits id k vs h = ground arith

pub unvisited-visit :
    (ks vs : List String) (id : String)
    → one_of ks id ≡ true
    → one_of vs id ≡ false
    → unvisited ks (id ∷ vs) < unvisited ks vs
unfolding unvisited
unvisited-visit [] vs id listed new = absurd (cc listed)
unvisited-visit (k ∷ ks) vs id listed new = ground (
  arith,
  unvisited-visit ks vs id,
  unvisited-shrinks ks vs (id ∷ vs) (λ j h. visits id j vs h),
  eq_iff k id,
  eq_iff id k,
)

pub unvisited_bound :
    (m : Dict TaskRecord) (vs : List String) → unvisited (Dict.keys m) vs ≤ length (Dict.values m)
unfolding unvisited
unvisited_bound [] vs = ground arith
unvisited_bound ((k, t) ∷ m) vs = ground (arith, unvisited_bound m vs)

-- What is over stays over.
pub Turns-over :
    {b b' : Broker} (k : String) → Turns b b' → IsValid b → is_over b k ≡ true → is_over b' k ≡ true
Turns-over {b} {b'} k ts v over = elim (Option-cases (Dict.get b.tasks k)) [
  | inl missing ↦ rw (Turns-absent k ts v missing, is_over) refl
  | inr (t, found) ↦
      let ended = sym (rw (found, is_over) refl) ∙ over in
      rw (Turns-terminal k t ts v found ended, is_over) ended
]

abbrev pub IsCanceled : Broker → String → Type 0
IsCanceled b k = (t : TaskRecord) × (Dict.get b.tasks k ≡ some t) × (t.status ≡ canceled)

pub Turns-IsCanceled :
    {b b' : Broker} (k : String) → Turns b b' → IsValid b → IsCanceled b k → IsCanceled b' k
Turns-IsCanceled k ts v (t, found, status) =
    (t, Turns-terminal k t ts v found (ap is_terminal status), status)

-- The invariant of the walk: its broker is valid, what is not over has one of the keys, and what it
-- has visited is over.
pub record IsWalk (ks : List String) (w : Walk) : Type 0 where
  pub valid : IsValid w.1
  pub within : (k : String) → is_over w.1 k ≡ false → one_of ks k ≡ true
  pub done : (k : String) → one_of w.0 k ≡ true → is_over w.1 k ≡ true

-- What a part of the walk achieves.
pub record Achieves (w w' : Walk) : Type 0 where
  pub turns : Turns w.1 w'.1
  pub grows : (k : String) → one_of w.0 k ≡ true → one_of w'.0 k ≡ true
  pub closed :
      (p c : String)
      → one_of w.0 p ≡ false
      → one_of w'.0 p ≡ true
      → IsChild w'.1 p c
      → is_over w'.1 c ≡ true
  pub counted :
      (k : String)
      → is_over w.1 k ≡ false
      → is_over w'.1 k ≡ true
      → (one_of w'.0 k ≡ true) × IsCanceled w'.1 k
  pub done : (k : String) → one_of w'.0 k ≡ true → is_over w'.1 k ≡ true

pub Achieves-refl : (ks : List String) (w : Walk) → IsWalk ks w → Achieves w w
Achieves-refl ks w i = record {
  turns = rest (Frame-refl w.1);
  grows = λ k h. h;
  closed = λ p c new old h. absurd (cc (new, old));
  counted = λ k alive over. absurd (cc (alive, over));
  done = i.done;
}

pub Achieves-IsWalk : (ks : List String) (w w' : Walk) → IsWalk ks w → Achieves w w' → IsWalk ks w'
Achieves-IsWalk ks w w' i a = record {
  valid = Turns-IsValid a.turns i.valid;
  within = λ k alive. elim (Bool-cases (is_over w.1 k)) [
    | inl over ↦ absurd (cc (alive, Turns-over k a.turns i.valid over))
    | inr before ↦ i.within k before
  ];
  done = a.done;
}

pub Achieves-trans :
    (ks : List String) (w w' w'' : Walk)
    → IsWalk ks w
    → Achieves w w'
    → Achieves w' w''
    → Achieves w w''
Achieves-trans ks w w' w'' i a a' =
    let v' = Turns-IsValid a.turns i.valid in
    record {
      turns = Turns-trans a.turns a'.turns;
      grows = λ k h. a'.grows k (a.grows k h);
      closed = λ p c new old h. elim (Bool-cases (one_of w'.0 p)) [
        | inl seen ↦
            Turns-over c a'.turns v' (a.closed p c new seen (IsChild-before p c a'.turns v' h))
        | inr unseen ↦ a'.closed p c unseen old h
      ];
      counted = λ k alive over. elim (Bool-cases (is_over w'.1 k)) [
        | inl early ↦
            let (seen, is_canceled) = a.counted k alive early in
            (a'.grows k seen, Turns-IsCanceled k a'.turns v' is_canceled)
        | inr still ↦ a'.counted k still over
      ];
      done = a'.done;
    }
