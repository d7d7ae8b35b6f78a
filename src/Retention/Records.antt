-- ===== src/Retention/Records.antt =====
-- The records that the retention policy goes through, with the fields that it reads. A time is the text
-- in the record.
use a2a_broker.Prelude.{ℕ, String, Bool, true, false, List, Option}
use a2a_broker.Prelude.Dict.{Dict}
use a2a_broker.Broker.Types.{Party, TaskStatus, ExchangeStatus, exchange_completed, exchange_failed}

pub record Exchange : Type 0 where
  pub id : String
  pub target : Party
  pub target_node_id : String
  pub assigned_worker_id : Option String
  pub status : ExchangeStatus
  pub active_task_id : Option String
  pub updated_at : String

pub record Message : Type 0 where
  pub id : String
  pub exchange_id : String

-- `result_artifact_ids` has the three lists of a result, one after the other.
pub record Task : Type 0 where
  pub id : String
  pub exchange_id : Option String
  pub proposal_id : Option String
  pub status : TaskStatus
  pub target : Party
  pub target_node_id : String
  pub assigned_worker_id : Option String
  pub claimed_by : Option String
  pub artifact_ids : List String
  pub result_artifact_ids : List String
  pub updated_at : String
  pub completed_at : Option String

pub data ProposalStatus : Type 0 where
  draft submitted validated approved rejected applied rolled_back : ProposalStatus

pub record Proposal : Type 0 where
  pub id : String
  pub source : Party
  pub target : Party
  pub source_node_id : String
  pub target_node_id : String
  pub artifact_ids : List String
  pub status : ProposalStatus
  pub updated_at : String

pub record Artifact : Type 0 where
  pub id : String
  pub proposal_id : String

pub record Validation : Type 0 where
  pub id : String
  pub proposal_id : String

pub record Worker : Type 0 where
  pub node_id : String
  pub last_seen_at : String

pub data TargetType : Type 0 where
  proposal artifact validation worker task exchange exchange_message broker : TargetType

-- The actions that the policy tells apart.
pub data Action : Type 0 where
  worker_heartbeat task_heartbeat other_action : Action

pub record AuditEvent : Type 0 where
  pub id : String
  pub action : Action
  pub target_type : TargetType
  pub target_id : String
  pub proposal_id : Option String
  pub created_at : String

pub record Store : Type 0 where
  pub exchanges : Dict Exchange
  pub exchange_messages : Dict Message
  pub tasks : Dict Task
  pub proposals : Dict Proposal
  pub artifacts : Dict Artifact
  pub validations : Dict Validation
  pub workers : Dict Worker
  pub audit_events : Dict AuditEvent

pub record RetentionPolicy : Type 0 where
  pub terminal_retention_ms : ℕ
  pub max_terminal_exchanges : ℕ
  pub max_terminal_tasks : ℕ
  pub max_terminal_proposals : ℕ
  pub inactive_worker_retention_ms : ℕ
  pub max_inactive_workers : ℕ
  pub audit_retention_ms : ℕ
  pub max_audit_events : ℕ
  pub max_heartbeat_audit_events : ℕ

-- `isTerminalExchangeStatus`
abbrev pub is_terminal_exchange : ExchangeStatus → Bool
is_terminal_exchange exchange_completed = true
is_terminal_exchange exchange_failed = true
is_terminal_exchange _ = false

-- `isTerminalProposalStatus`
abbrev pub is_terminal_proposal : ProposalStatus → Bool
is_terminal_proposal rejected = true
is_terminal_proposal applied = true
is_terminal_proposal rolled_back = true
is_terminal_proposal _ = false

-- `isHeartbeatAuditEvent`
abbrev pub is_heartbeat : Action → TargetType → Bool
is_heartbeat worker_heartbeat worker = true
is_heartbeat task_heartbeat task = true
is_heartbeat _ _ = false
