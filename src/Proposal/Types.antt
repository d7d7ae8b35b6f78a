-- ===== src/Proposal/Types.antt =====
-- src/core/proposal-types.ts, with the alias table of src/core/proposal-lifecycle.ts.
use a2a_broker.Prelude.{ℕ, String, Bool, true, false, List, Option, ◌==◌, if◌then◌else◌}

pub data ProposalStatus : Type 0 where
  proposed blocked approved rejected applying applied failed : ProposalStatus

pub data BlockReason : Type 0 where
  quorum_not_met chair_veto conflict_detected validation_failed : BlockReason
  apply_timeout apply_error other : BlockReason

-- `PROPOSAL_TRANSITIONS[from].has(to)`
abbrev pub transitions : ProposalStatus → ProposalStatus → Bool
transitions proposed blocked = true
transitions proposed approved = true
transitions proposed rejected = true
transitions blocked approved = true
transitions blocked rejected = true
transitions approved applying = true
transitions approved rejected = true
transitions applying applied = true
transitions applying failed = true
transitions failed approved = true
transitions failed rejected = true
transitions _ _ = false

pub data EventKind : Type 0 where
  proposal_created proposal_blocked proposal_approved proposal_rejected : EventKind
  proposal_applying proposal_applied proposal_failed : EventKind

abbrev pub status_to_event_kind : ProposalStatus → EventKind
status_to_event_kind proposed = proposal_created
status_to_event_kind blocked = proposal_blocked
status_to_event_kind approved = proposal_approved
status_to_event_kind rejected = proposal_rejected
status_to_event_kind applying = proposal_applying
status_to_event_kind applied = proposal_applied
status_to_event_kind failed = proposal_failed

pub record Participant : Type 0 where
  pub node_id : String
  pub display_name : Option String
  pub role : String

pub data Category : Type 0 where
  analysis decision artifact correction : Category

pub record Artifact : Type 0 where
  pub id : String
  pub category : Category
  pub summary : String

pub record Proposal : Type 0 where
  pub id : String
  pub parent_task_id : String
  pub conference_room_id : Option String
  pub status : ProposalStatus
  pub summary : String
  pub participants : List Participant
  pub artifacts : List Artifact
  pub reason_code : Option BlockReason
  pub created_at : ℕ
  pub updated_at : ℕ
  pub apply_started_at : Option ℕ
  pub apply_completed_at : Option ℕ
  pub apply_attempts : ℕ

pub record ProposalEvent : Type 0 where
  pub id : ℕ
  pub timestamp : ℕ
  pub proposal_id : String
  pub parent_task_id : String
  pub conference_room_id : Option String
  pub kind : EventKind
  pub reason_code : Option BlockReason
  pub apply_attempt : Option ℕ

-- The alias table. A text that it does not name, and an inherited key of the table object, is `other`.
unfoldable pub resolve_block_reason : String → BlockReason
resolve_block_reason raw =
    if raw == "quorum"
    then quorum_not_met
    else if raw == "quorum_not_met"
    then quorum_not_met
    else if raw == "veto"
    then chair_veto
    else if raw == "chair_veto"
    then chair_veto
    else if raw == "conflict"
    then conflict_detected
    else if raw == "conflict_detected"
    then conflict_detected
    else if raw == "validation"
    then validation_failed
    else if raw == "validation_failed"
    then validation_failed
    else if raw == "timeout"
    then apply_timeout
    else if raw == "apply_timeout"
    then apply_timeout
    else if raw == "apply_error"
    then apply_error
    else if raw == "error"
    then apply_error
    else other
