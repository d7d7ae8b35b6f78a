-- ===== src/Proposal/Moves.antt =====
-- Every call on the manager makes one of three moves: it leaves the manager alone, enters a new
-- proposal, or advances one proposal along an edge of `PROPOSAL_TRANSITIONS`.
use a2a_broker.Prelude.{
  ℕ, ◌+◌, ◌<◌, ◌≡◌, String, Bool, true, false, List, [], ◌∷◌, some, is_some, if◌then◌else◌,
}
use a2a_broker.Prelude.Dict
use a2a_broker.EventBuffer.Announce
use a2a_broker.Proposal.Types.{
  Proposal, ProposalEvent, ProposalStatus, proposed, blocked, approved, rejected, applying, applied,
  failed, transitions, status_to_event_kind,
}
use a2a_broker.Proposal.Manager.{
  Manager, Action, CreateInput, create, block, approve, reject, start_apply, complete_apply,
  fail_apply, is_failed,
}

pub data Operation : Type 0 where
  creates : CreateInput → String → Operation
  blocks fails : String → String → Operation
  approves rejects starts completes : String → Operation

-- One call, with the two readings of the clock that it may take.
unfoldable pub call : Operation → ℕ → ℕ → Action Proposal
unfolding create block approve reject start_apply complete_apply fail_apply
call (creates input id) = create input id
call (blocks id reason) = block id reason
call (fails id reason) = fail_apply id reason
call (approves id) = approve id
call (rejects id) = reject id
call (starts id) = start_apply id
call (completes id) = complete_apply id

-- The manager after a call. An error leaves what the call wrote before it.
unfoldable pub step : Manager → Operation → ℕ → ℕ → Manager
unfolding call
step m o now emitted = (call o now emitted m).1

-- The proposal that a call is about, and the status that it is to have.
abbrev pub key_of : Operation → String
key_of (creates input id) = id
key_of (blocks id reason) = id
key_of (fails id reason) = id
key_of (approves id) = id
key_of (rejects id) = id
key_of (starts id) = id
key_of (completes id) = id

abbrev pub target_of : Operation → ProposalStatus
target_of (creates input id) = proposed
target_of (blocks id reason) = blocked
target_of (fails id reason) = failed
target_of (approves id) = approved
target_of (rejects id) = rejected
target_of (starts id) = applying
target_of (completes id) = applied

pub record Call : Type 0 where
  pub operation : Operation
  pub now : ℕ
  pub emitted : ℕ

unfoldable pub run : Manager → List Call → Manager
unfolding step
run m [] = m
run m (c ∷ calls) = run (step m c.operation c.now c.emitted) calls

-- Which optional fields each status needs.
abbrev pub has_started : ProposalStatus → Bool
has_started applying = true
has_started applied = true
has_started failed = true
has_started _ = false

abbrev pub has_ended : ProposalStatus → Bool
has_ended applied = true
has_ended failed = true
has_ended _ = false

abbrev pub needs_reason : ProposalStatus → Bool
needs_reason blocked = true
needs_reason failed = true
needs_reason _ = false

pub record IsConsistent (p : Proposal) : Type 0 where
  pub started : has_started p.status ≡ true → is_some p.apply_started_at ≡ true
  pub ended : has_ended p.status ≡ true → is_some p.apply_completed_at ≡ true
  pub reasoned : needs_reason p.status ≡ true → is_some p.reason_code ≡ true
  pub attempted : is_failed p.status ≡ true → 0 < p.apply_attempts

pub record Update (p p' : Proposal) : Type 0 where
  pub edge : transitions p.status p'.status ≡ true
  pub same_id : p'.id ≡ p.id
  pub same_parent : p'.parent_task_id ≡ p.parent_task_id
  pub same_created : p'.created_at ≡ p.created_at
  pub attempts : p'.apply_attempts ≡ p.apply_attempts + (if is_failed p'.status then 1 else 0)
  pub keeps : IsConsistent p → IsConsistent p'

-- The event of a move names the proposal's new status.
abbrev pub Names : Proposal → ProposalEvent → Type 0
Names p e = e.kind ≡ status_to_event_kind p.status

abbrev pub Emits : String → Proposal → Manager → Manager → Type 0
Emits k p m m' = Announce.Emits (λ e. e.id) (λ e. e.proposal_id) Names k p m.buffer m'.buffer

pub data Move (k : String) (target : ProposalStatus) (m m' : Manager) : Type 0 where
  stay : m' ≡ m → Move k target m m'
  enter :
      (p : Proposal)
      → target ≡ proposed
      → p.id ≡ k
      → p.status ≡ proposed
      → IsConsistent p
      → m'.proposals ≡ Dict.set m.proposals k p
      → Emits k p m m'
      → Move k target m m'
  advance :
      (p p' : Proposal)
      → Dict.get m.proposals k ≡ some p
      → p'.status ≡ target
      → Update p p'
      → m'.proposals ≡ Dict.set m.proposals k p'
      → Emits k p' m m'
      → Move k target m m'
