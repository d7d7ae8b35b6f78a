-- ===== src/Proposal/Manager.antt =====
-- src/core/proposal-lifecycle.ts, `ProposalManager`. A proposal is changed in place, so each change is
-- written back under its id.
use a2a_broker.Prelude.{
  passes, ℕ, ◌+◌, String, Bool, true, false, not, List, [], Option, none, some, filter, leb,
  or_option, ◌==◌, ◌&&◌, if◌then◌else◌,
}
use a2a_broker.Prelude.Dict
use a2a_broker.Prelude.Dict.{Dict}
use a2a_broker.Prelude.Exec.{Exec, pure, modify, throw_if, or_raise, ◌>>=◌, ◌>>◌}
use a2a_broker.EventBuffer
use a2a_broker.EventBuffer.{CursorEventBuffer}
use a2a_broker.Proposal.Types.{
  Proposal, ProposalEvent, ProposalStatus, proposed, blocked, approved, rejected, applying, applied,
  failed, BlockReason, Participant, Artifact, EventKind, proposal_created, transitions,
  status_to_event_kind, resolve_block_reason,
}

pub record Manager : Type 0 where
  pub proposals : Dict Proposal
  pub buffer : CursorEventBuffer ProposalEvent

-- `ProposalError.code`
pub data ProposalError : Type 0 where
  not_found invalid_transition : ProposalError

pub record CreateInput : Type 0 where
  pub parent_task_id : String
  pub conference_room_id : Option String
  pub summary : String
  pub participants : List Participant
  pub artifacts : Option (List Artifact)

abbrev pub Action : Type 0 → Type 0
Action = Exec Manager ProposalError

-- `maxEvents` 0 or absent means 500.
unfoldable pub new : Option ℕ → Manager
unfolding EventBuffer.new
new none = record { proposals = []; buffer = EventBuffer.new 500 }
new (some max_events) = record {
  proposals = [];
  buffer = EventBuffer.new (if leb max_events 0 then 500 else max_events);
}

unfoldable pub emit_event :
    String → Proposal → EventKind → Option BlockReason → Option ℕ → ℕ → Manager → Manager
emit_event id p kind reason apply_attempt now m = record m {
  buffer = EventBuffer.emit m.buffer (λ event_id. record {
    id = event_id;
    timestamp = now;
    proposal_id = id;
    parent_task_id = p.parent_task_id;
    conference_room_id = p.conference_room_id;
    kind = kind;
    reason_code = reason;
    apply_attempt = apply_attempt;
  });
}

abbrev pub save : String → Proposal → Manager → Manager
save id p m = record m { proposals = Dict.set m.proposals id p }

-- `getProposal`
unfoldable pub get_proposal : Manager → String → Option Proposal
get_proposal m id = Dict.get m.proposals id

unfoldable pub create : CreateInput → String → ℕ → ℕ → Action Proposal
unfolding emit_event
create input id now emitted m =
    let p : Proposal = record {
      id = id;
      parent_task_id = input.parent_task_id;
      conference_room_id = input.conference_room_id;
      status = proposed;
      summary = input.summary;
      participants = input.participants;
      artifacts = elim input.artifacts [ none ↦ [] | some artifacts ↦ artifacts ];
      reason_code = none;
      created_at = now;
      updated_at = now;
      apply_started_at = none;
      apply_completed_at = none;
      apply_attempts = 0;
    } in
    (do modify (save id p); modify (emit_event id p proposal_created none none emitted); pure p) m

unfoldable pub require_proposal : String → Action Proposal
unfolding get_proposal
require_proposal id m = or_raise (get_proposal m id) not_found m

abbrev pub is_failed : ProposalStatus → Bool
is_failed failed = true
is_failed _ = false

-- `if (reasonCode) proposal.reasonCode = reasonCode`
abbrev pub moved : Proposal → ProposalStatus → Option BlockReason → ℕ → Proposal
moved p target reason now = record p {
  status = target;
  updated_at = now;
  reason_code = or_option reason p.reason_code;
}

unfoldable pub transition : String → ProposalStatus → Option BlockReason → ℕ → ℕ → Action Proposal
unfolding require_proposal emit_event
transition id target reason now emitted = do
  p ← require_proposal id
  throw_if (not (transitions p.status target)) invalid_transition
  let p' = moved p target reason now
  modify (save id p')
  let attempt : Option ℕ = if is_failed target then some (p'.apply_attempts + 1) else none
  modify (emit_event id p' (status_to_event_kind target) reason attempt emitted)
  pure p'

unfoldable pub block : String → String → ℕ → ℕ → Action Proposal
block id reason = transition id blocked (some (resolve_block_reason reason))

unfoldable pub approve : String → ℕ → ℕ → Action Proposal
approve id = transition id approved none

unfoldable pub reject : String → ℕ → ℕ → Action Proposal
reject id = transition id rejected none

abbrev pub is_applying : ProposalStatus → Bool
is_applying applying = true
is_applying _ = false

abbrev pub is_applied : ProposalStatus → Bool
is_applied applied = true
is_applied _ = false

unfoldable pub start_apply : String → ℕ → ℕ → Action Proposal
unfolding require_proposal
start_apply id now emitted = do
  proposal ← require_proposal id
  if is_applying proposal.status then pure proposal else do
    p ← transition id applying none now emitted
    let p' = record p { apply_started_at = some p.updated_at }
    modify (save id p')
    pure p'

unfoldable pub complete_apply : String → ℕ → ℕ → Action Proposal
unfolding require_proposal
complete_apply id now emitted = do
  proposal ← require_proposal id
  if is_applied proposal.status then pure proposal else do
    p ← transition id applied none now emitted
    let p' = record p { apply_completed_at = some p.updated_at }
    modify (save id p')
    pure p'

unfoldable pub fail_apply : String → String → ℕ → ℕ → Action Proposal
unfolding require_proposal
fail_apply id reason now emitted = do
  _ ← require_proposal id
  p ← transition id failed (some (resolve_block_reason reason)) now emitted
  let p' = record p {
    apply_completed_at = some p.updated_at;
    apply_attempts = p.apply_attempts + 1;
  }
  modify (save id p')
  pure p'

-- `getProposalsForTask`
unfoldable pub get_proposals_for_task : Manager → String → List Proposal
get_proposals_for_task m task = filter (λ p. p.parent_task_id == task) (Dict.values m.proposals)

pub record SubscribeOptions : Type 0 where
  pub after_id : Option ℕ
  pub parent_task_id : Option String
  pub conference_room_id : Option String
  pub limit : Option ℕ

abbrev pub matches : SubscribeOptions → ProposalEvent → Bool
matches options e =
    passes options.parent_task_id (some e.parent_task_id)
    && passes options.conference_room_id e.conference_room_id

unfoldable pub subscribe : Manager → SubscribeOptions → List ProposalEvent
subscribe m options =
    EventBuffer.subscribe (λ e. e.id) m.buffer options.after_id options.limit (matches options)
