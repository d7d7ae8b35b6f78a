-- ===== src/Proposal/Responses.antt =====
-- What the calls answer: errors change nothing, and what a repeated call does.
use a2a_broker.Prelude.{
  ℕ, ◌≡◌, refl, subst, String, Bool, true, false, Option, none, some, arith, eq_refl, is_some, inl,
  inr, Option-cases, Bool-cases, if◌then◌else◌,
}
use a2a_broker.Prelude.Dict
use a2a_broker.Prelude.Exec.{Result, ok, err, pure, modify, ◌>>=◌, ◌>>◌}
use a2a_broker.Proposal.Types.{
  Proposal, ProposalStatus, BlockReason, approved, applying, applied, transitions,
}
use a2a_broker.Proposal.Manager.{
  Manager, ProposalError, transition, invalid_transition, start_apply, complete_apply, approve,
  moved, is_applying, is_applied, Action, require_proposal, get_proposal, save,
}
use a2a_broker.Proposal.Moves.{Operation, creates, call}
use a2a_broker.Proposal.Steps.{transition-cases, after_transition}

-- A call that throws leaves the manager as it was.
pub call-error_unchanged :
    (o : Operation) (now emitted : ℕ) (m : Manager) {x : ProposalError}
    → (call o now emitted m).0 ≡ err x
    → (call o now emitted m).1 ≡ m
unfolding call transition
call-error_unchanged (creates input id) now emitted m h = cc
call-error_unchanged _ now emitted m h = ground arith

-- After a success the manager holds the answered proposal, in a status that the guard recognises.
abbrev Answered :
    String → (ProposalStatus → Bool) → Result ProposalError Proposal × Manager → Type 0
Answered id done (ok p, m) = (Dict.get m.proposals id ≡ some p) × (done p.status ≡ true)
Answered id done (err x, m) = Unit

module _ (id : String) (target : ProposalStatus) (done : ProposalStatus → Bool)
    (stamp : Proposal → Proposal)
    (stamped : (p : Proposal) (now : ℕ)
      → done (stamp (moved p target none now)).status ≡ true) where
  abbrev guarded : ℕ → ℕ → Action Proposal
  guarded now emitted = do
    proposal ← require_proposal id
    if done proposal.status then pure proposal else do
      p ← transition id target none now emitted
      modify (save id (stamp p))
      pure (stamp p)

  guarded-Answered : (now emitted : ℕ) (m : Manager) → Answered id done (guarded now emitted m)
  unfolding require_proposal get_proposal
  guarded-Answered now emitted m = elim (Option-cases (Dict.get m.proposals id)) [
    | inl missing ↦ rw missing tt
    | inr (q, found) ↦ elim (Bool-cases (done q.status)) [
      | inl already ↦ rw (found, already) (found, already)
      | inr other ↦ elim (transition-cases id target none now emitted m) [
        | inl (x, e) ↦ rw (found, other, e) tt
        | inr (p, held, edge, e) ↦
            rw (found, other, e) (Dict.get-set_same _ id id _ (eq_refl id), stamped p now)
      ]
    ]
  ]

  guarded-twice :
      (now emitted now' emitted' : ℕ) (m m' : Manager) (p : Proposal)
      → guarded now emitted m ≡ (ok p, m')
      → guarded now' emitted' m' ≡ (ok p, m')
  unfolding require_proposal get_proposal
  guarded-twice now emitted now' emitted' m m' p h =
      let (held, already) = subst (Answered id done) h (guarded-Answered now emitted m) in
      rw (held, already)

-- `startApply` is idempotent: after it has succeeded, a second call answers with the same proposal
-- and changes nothing, so that it emits no second event.
pub start_apply-twice :
    (id : String) (now emitted now' emitted' : ℕ) (m m' : Manager) (p : Proposal)
    → start_apply id now emitted m ≡ (ok p, m')
    → start_apply id now' emitted' m' ≡ (ok p, m')
unfolding start_apply
start_apply-twice id now emitted now' emitted' m m' p h =
    guarded-twice id applying is_applying (λ q. record q { apply_started_at = some q.updated_at })
      (λ q n. refl) now emitted now' emitted' m m' p h

-- `completeApply` is idempotent: after it has succeeded, a second call answers with the same
-- proposal and changes nothing.
pub complete_apply-twice :
    (id : String) (now emitted now' emitted' : ℕ) (m m' : Manager) (p : Proposal)
    → complete_apply id now emitted m ≡ (ok p, m')
    → complete_apply id now' emitted' m' ≡ (ok p, m')
unfolding complete_apply
complete_apply-twice id now emitted now' emitted' m m' p h =
    guarded-twice id applied is_applied (λ q. record q { apply_completed_at = some q.updated_at })
      (λ q n. refl) now emitted now' emitted' m m' p h

abbrev RefusesAgain : String → ProposalStatus → Result ProposalError Proposal × Manager → Type 0
RefusesAgain id target (ok p, m) =
    (reason : Option BlockReason) (now emitted : ℕ)
    → transition id target reason now emitted m ≡ (err invalid_transition, m)
RefusesAgain id target (err x, m) = Unit

no_loop : (s : ProposalStatus) → transitions s s ≡ false
no_loop s = ground arith

transition-again :
    (id : String) (target : ProposalStatus) (reason : Option BlockReason) (now emitted : ℕ)
    (m : Manager)
    → RefusesAgain id target (transition id target reason now emitted m)
transition-again id target reason now emitted m =
    elim (transition-cases id target reason now emitted m) [
      | inl (x, e) ↦ rw e tt
      | inr (p, held, edge, e) ↦ rw e (λ reason' now' emitted'.
          unfold transition after_transition in
          rw (
            Dict.get-set_same m.proposals id id (moved p target reason now) (eq_refl id),
            no_loop target,
          ))
    ]

-- Approving is not idempotent: after a successful `approve`, a second one is refused as an invalid
-- transition and changes nothing.
pub approve-twice_refused :
    (id : String) (now emitted now' emitted' : ℕ) (m m' : Manager) (p : Proposal)
    → approve id now emitted m ≡ (ok p, m')
    → approve id now' emitted' m' ≡ (err invalid_transition, m')
unfolding approve
approve-twice_refused id now emitted now' emitted' m m' p h =
    subst (RefusesAgain id approved) h (transition-again id approved none now emitted m) none now'
      emitted'

-- A reason code outlives the block that gave it: whoever approves a proposal that carries one gets
-- an approved proposal that still carries it.
pub approve-keeps_reason :
    (id : String) (now emitted : ℕ) (m m' : Manager) (p p' : Proposal)
    → Dict.get m.proposals id ≡ some p
    → is_some p.reason_code ≡ true
    → approve id now emitted m ≡ (ok p', m')
    → (p'.status ≡ approved) × (p'.reason_code ≡ p.reason_code) × (is_some p'.reason_code ≡ true)
unfolding approve transition
approve-keeps_reason id now emitted m m' p p' found reason h = ground arith
