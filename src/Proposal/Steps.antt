-- ===== src/Proposal/Steps.antt =====
-- Each operation of the manager makes one of the three moves.
use a2a_broker.Prelude.{
  ℕ, ◌+◌, ◌≡◌, refl, String, Bool, true, false, Option, none, some, arith, is_some, if◌then◌else◌,
  ◌⊎◌, inl, inr, Option-cases, Bool-cases,
}
use a2a_broker.Prelude.Dict
use a2a_broker.Prelude.Exec.{ok, err, pure, modify, ◌>>=◌, ◌>>◌}
use a2a_broker.Proposal.Types.{
  Proposal, ProposalStatus, proposed, blocked, approved, rejected, applying, applied, failed,
  BlockReason, resolve_block_reason, transitions, status_to_event_kind,
}
use a2a_broker.Proposal.Moves.{
  Operation, creates, blocks, fails, approves, rejects, starts, completes, step, key_of, target_of,
  has_started, needs_reason, Update, Move, stay, enter, advance,
}
use a2a_broker.Proposal.Manager.{
  Manager, CreateInput, create, block, approve, reject, start_apply, complete_apply, fail_apply,
  is_failed, is_applying, is_applied, require_proposal, get_proposal, ProposalError, not_found,
  invalid_transition, transition, moved, save, emit_event,
}

-- A transition either throws and changes nothing, or writes the moved proposal and its event.
unfoldable pub after_transition :
    String → Proposal → ProposalStatus → Option BlockReason → ℕ → ℕ → Manager → Manager
after_transition id p target reason now emitted m =
    let p' = moved p target reason now in
    let attempt : Option ℕ = if is_failed target then some (p'.apply_attempts + 1) else none in
    emit_event id p' (status_to_event_kind target) reason attempt emitted (save id p' m)

pub transition-cases :
    (id : String) (target : ProposalStatus) (reason : Option BlockReason) (now emitted : ℕ)
    (m : Manager)
    → ((x : ProposalError) × (transition id target reason now emitted m ≡ (err x, m)))
      ⊎ ((p : Proposal) × (Dict.get m.proposals id ≡ some p)
          × (transitions p.status target ≡ true)
          × (transition id target reason now emitted m ≡ (
            ok (moved p target reason now),
            after_transition id p target reason now emitted m,
          )))
unfolding transition after_transition
transition-cases id target reason now emitted m = elim (Option-cases (Dict.get m.proposals id)) [
  | inl missing ↦ inl (not_found, rw missing)
  | inr (p, found) ↦ elim (Bool-cases (transitions p.status target)) [
    | inl allowed ↦ inr (p, found, allowed, rw (found, allowed))
    | inr refused ↦ inl (invalid_transition, rw (found, refused))
  ]
]

-- The proposal that the manager holds in the end may have had more fields written.
advance-save :
    (id : String) (p p' : Proposal) (target : ProposalStatus) (reason : Option BlockReason)
    (now emitted : ℕ) (m : Manager)
    → Dict.get m.proposals id ≡ some p
    → Update p p'
    → p'.status ≡ target
    → Move id target m (save id p' (after_transition id p target reason now emitted m))
unfolding after_transition emit_event
advance-save id p p' target reason now emitted m found u reached =
    advance p p' found reached u (Dict.set-set m.proposals id _ p') (record {
      make = _;
      appended = refl;
      carries = λ n. refl;
      about = λ n. refl;
      announces = λ n. rw reached;
    })

transition-Move :
    (id : String) (target : ProposalStatus) (reason : Option BlockReason) (now emitted : ℕ)
    (m : Manager)
    → ((p : Proposal) → transitions p.status target ≡ true → Update p (moved p target reason now))
    → Move id target m (transition id target reason now emitted m).1
unfolding after_transition emit_event
transition-Move id target reason now emitted m updates =
    elim (transition-cases id target reason now emitted m) [
      | inl (x, e) ↦ rw e (stay refl)
      | inr (p, found, allowed, e) ↦ rw e (
          advance p (moved p target reason now) found refl (updates p allowed) refl (record {
            make = _;
            appended = refl;
            carries = λ n. refl;
            about = λ n. refl;
            announces = λ n. refl;
          }))
    ]

-- What a transition writes to a proposal, for the targets that need no further field.
moved-Update :
    (p : Proposal) (target : ProposalStatus) (reason : Option BlockReason) (now : ℕ)
    → transitions p.status target ≡ true
    → has_started target ≡ false
    → (needs_reason target ≡ true → is_some reason ≡ true)
    → Update p (moved p target reason now)
moved-Update p target reason now edge early reasoned = record {
  edge = edge;
  same_id = refl;
  same_parent = refl;
  same_created = refl;
  attempts = ground arith;
  keeps = λ c. ground arith;
}

create-Move :
    (input : CreateInput) (id : String) (now emitted : ℕ) (m : Manager)
    → Move id proposed m (create input id now emitted m).1
unfolding create emit_event
create-Move input id now emitted m = enter _ refl refl refl (ground arith) refl (record {
  make = _;
  appended = refl;
  carries = λ n. refl;
  about = λ n. refl;
  announces = λ n. refl;
})

-- `startApply` and `completeApply`: the guard, then the transition, then one more field.
guarded-Move :
    (id : String) (target : ProposalStatus) (now emitted : ℕ) (m : Manager)
    (done : ProposalStatus → Bool) (stamp : Proposal → Proposal)
    → ((p : Proposal)
        → transitions p.status target ≡ true
        → Update p (stamp (moved p target none now))
          × ((stamp (moved p target none now)).status ≡ target))
    → Move id target m
        ((do
          proposal ← require_proposal id
          if done proposal.status then pure proposal else do
            p ← transition id target none now emitted
            modify (save id (stamp p))
            pure (stamp p))
          m).1
unfolding require_proposal get_proposal
guarded-Move id target now emitted m done stamp updates =
    elim (Option-cases (Dict.get m.proposals id)) [
      | inl missing ↦ rw missing (stay refl)
      | inr (q, found) ↦ elim (Bool-cases (done q.status)) [
        | inl already ↦ rw (found, already) (stay refl)
        | inr other ↦ elim (transition-cases id target none now emitted m) [
          | inl (x, e) ↦ rw (found, other, e) (stay refl)
          | inr (p, held, edge, e) ↦
              rw (found, other, e)
                (advance-save id p (stamp (moved p target none now)) target none now emitted m held
                  (updates p edge).0 (updates p edge).1)
        ]
      ]
    ]

start_apply-Move :
    (id : String) (now emitted : ℕ) (m : Manager)
    → Move id applying m (start_apply id now emitted m).1
unfolding start_apply
start_apply-Move id now emitted m =
    guarded-Move id applying now emitted m is_applying
      (λ p. record p { apply_started_at = some p.updated_at })
      λ p edge. (
        record {
          edge = edge;
          same_id = refl;
          same_parent = refl;
          same_created = refl;
          attempts = omega arith;
          keeps = λ c. ground arith;
        },
        refl,
      )

complete_apply-Move :
    (id : String) (now emitted : ℕ) (m : Manager)
    → Move id applied m (complete_apply id now emitted m).1
unfolding complete_apply
complete_apply-Move id now emitted m =
    guarded-Move id applied now emitted m is_applied
      (λ p. record p { apply_completed_at = some p.updated_at })
      λ p edge. (
        record {
          edge = edge;
          same_id = refl;
          same_parent = refl;
          same_created = refl;
          attempts = omega arith;
          keeps = λ c. ground arith;
        },
        refl,
      )

fail_apply-Move :
    (id reason : String) (now emitted : ℕ) (m : Manager)
    → Move id failed m (fail_apply id reason now emitted m).1
unfolding fail_apply
fail_apply-Move id reason now emitted m = elim (Option-cases (Dict.get m.proposals id)) [
  | inl missing ↦ rw missing (stay refl)
  | inr (q, found) ↦
      let code : Option BlockReason = some (resolve_block_reason reason) in
      elim (transition-cases id failed code now emitted m) [
        | inl (x, e) ↦ rw (found, e) (stay refl)
        | inr (p, held, edge, e) ↦
            rw (found, e)
              (advance-save id p _ failed code now emitted m held
                (record {
                  edge = edge;
                  same_id = refl;
                  same_parent = refl;
                  same_created = refl;
                  attempts = refl;
                  keeps = λ c. ground arith;
                })
                refl)
      ]
]

pub step-Move :
    (m : Manager) (o : Operation) (now emitted : ℕ)
    → Move (key_of o) (target_of o) m (step m o now emitted)
unfolding step block approve reject
step-Move m (creates input id) now emitted = create-Move input id now emitted m
step-Move m (blocks id reason) now emitted =
    transition-Move id blocked (some (resolve_block_reason reason)) now emitted m
      (λ p e. moved-Update p blocked (some (resolve_block_reason reason)) now e refl (λ n. refl))
step-Move m (fails id reason) now emitted = fail_apply-Move id reason now emitted m
step-Move m (approves id) now emitted =
    transition-Move id approved none now emitted m
      (λ p e. moved-Update p approved none now e refl (λ n. cc))
step-Move m (rejects id) now emitted =
    transition-Move id rejected none now emitted m
      (λ p e. moved-Update p rejected none now e refl (λ n. cc))
step-Move m (starts id) now emitted = start_apply-Move id now emitted m
step-Move m (completes id) now emitted = complete_apply-Move id now emitted m
