-- ===== src/Proposal/Finality.antt =====
-- Where the lifecycle of a proposal ends, and what it takes to get there.
use a2a_broker.Prelude.{
  ◌≡◌, refl, subst, Bool-cases, ◌⊎◌, inl, inr, String, Bool, true, false, List, [], ◌∷◌, Option,
  none, some, arith, eq_iff, ◌≢◌, ◌==◌,
}
use mathlib.Core.List.{Memᴰ}
use a2a_broker.Prelude.Dict
use a2a_broker.Proposal.Types.{
  Proposal, ProposalStatus, transitions, proposed, approved, applying, failed, rejected, applied,
}
use a2a_broker.Proposal.Manager.{Manager}
use a2a_broker.Proposal.Moves.{Call, step, run, Move, stay, enter, advance, key_of, target_of}
use a2a_broker.Proposal.Steps.{step-Move}

abbrev pub is_final : ProposalStatus → Bool
is_final rejected = true
is_final applied = true
is_final _ = false

-- The calls create no proposal under the id.
abbrev pub Spares : String → List Call → Type 0
Spares k [] = Unit
Spares k (c ∷ calls) =
    ((target_of c.operation ≡ proposed) → key_of c.operation ≢ k) × Spares k calls

Move-final :
    (j : String) (target : ProposalStatus) (m m' : Manager) (k : String) (p : Proposal)
    → Move j target m m'
    → ((target ≡ proposed) → j ≢ k)
    → is_final p.status ≡ true
    → Dict.get m.proposals k ≡ some p
    → Dict.get m'.proposals k ≡ some p
Move-final j target m m' k p (stay e) spare final found = rw e found
Move-final j target m m' k p (enter q t named status c written s) spare final found =
    rw (written, Dict.get-set m.proposals j k q) (ground (arith, eq_iff j k, spare t))
Move-final j target m m' k p (advance q q' held t u written s) spare final found =
    rw (written, Dict.get-set m.proposals j k q') (ground (arith, eq_iff j k, u.edge))

-- A rejected or applied proposal never changes again, under any later calls that do not create a
-- proposal of the same id.
pub run-final :
    (m : Manager) (calls : List Call) (k : String) (p : Proposal)
    → Dict.get m.proposals k ≡ some p
    → is_final p.status ≡ true
    → Spares k calls
    → Dict.get (run m calls).proposals k ≡ some p
unfolding run
run-final m [] k p found final spare = found
run-final m (c ∷ calls) k p found final spare =
    run-final (step m c.operation c.now c.emitted) calls k p
      (Move-final (key_of c.operation) (target_of c.operation) m _ k p
        (step-Move m c.operation c.now c.emitted) spare.0 final found)
      final spare.1

abbrev pub is_past_approval : ProposalStatus → Bool
is_past_approval approved = true
is_past_approval applying = true
is_past_approval applied = true
is_past_approval failed = true
is_past_approval _ = false

abbrev past_in : Option Proposal → Bool
past_in none = false
past_in (some p) = is_past_approval p.status

-- Whether the manager holds a proposal that is approved, or was on its way through an apply.
abbrev pub past_approval : Manager → String → Bool
past_approval m k = past_in (Dict.get m.proposals k)

advance_past :
    (s t : ProposalStatus)
    → transitions s t ≡ true
    → is_past_approval s ≡ false
    → (is_past_approval t ≡ false) ⊎ (t ≡ approved)
advance_past s t edge was = ground arith

Move-past :
    (j : String) (target : ProposalStatus) (m m' : Manager) (k : String)
    → Move j target m m'
    → past_approval m k ≡ false
    → (past_approval m' k ≡ false) ⊎ ((j ≡ k) × (target ≡ approved))
Move-past j target m m' k (stay e) before = inl (rw e before)
Move-past j target m m' k (enter q t named status c written s) before =
    inl (rw (written, Dict.get-set m.proposals j k q) (ground arith))
Move-past j target m m' k (advance q q' held t u written s) before = elim (Bool-cases (j == k)) [
  | inl same ↦
      let at : j ≡ k = (eq_iff j k).0 same in
      let was : is_past_approval q.status ≡ false =
        subst (λ o. past_in o ≡ false) (subst (λ i. Dict.get m.proposals i ≡ some q) at held)
          before in
      elim (advance_past q.status q'.status u.edge was) [
        | inl still ↦ inl (rw (written, Dict.get-set_same m.proposals j k q' same) still)
        | inr reached ↦ inr (at, cc)
      ]
  | inr other ↦ inl (rw (written, Dict.get-set_other m.proposals j k q' other) before)
]

-- A manager where the proposal is not past approval comes to one where it is only by an `approve` of
-- that very proposal: nothing is applied, and no apply is even started, without it.
pub run-needs_approve :
    (m : Manager) (calls : List Call) (k : String)
    → past_approval m k ≡ false
    → past_approval (run m calls) k ≡ true
    → (c : Call) × Memᴰ c calls × (key_of c.operation ≡ k) × (target_of c.operation ≡ approved)
unfolding run
run-needs_approve m [] k before after = cc
run-needs_approve m (c ∷ calls) k before after =
    elim (Move-past (key_of c.operation) (target_of c.operation) m _ k
      (step-Move m c.operation c.now c.emitted) before) [
        | inl still ↦
            let (d, member, at, target) =
              run-needs_approve (step m c.operation c.now c.emitted) calls k still after in
            (d, Memᴰ.tail member, at, target)
        | inr (at, target) ↦ (c, Memᴰ.head refl, at, target)
      ]
