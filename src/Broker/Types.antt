-- ===== src/Broker/Types.antt =====
-- src/core/types.ts: the records that the task operations of src/core/broker.ts read and write. A
-- time is the number of milliseconds that the ISO text stands for. Of a task, the fields that these
-- operations only carry along (`via`, `payload`, `workspace`, `wake`, `referenceTaskIds`) are left
-- out.
use a2a_broker.Prelude.{ℕ, String, Bool, true, false, List, Option}

pub data Role : Type 0 where
  hub live_trader researcher analyst operator : Role

pub data PartyKind : Type 0 where
  session node user service : PartyKind

pub record Party : Type 0 where
  pub id : String
  pub kind : Option PartyKind
  pub role : Option Role

pub data Intent : Type 0 where
  chat analyze verify backfill propose_patch propose_params validate_change : Intent
  apply_local_change promote_to_live rollback_live : Intent

pub data TaskStatus : Type 0 where
  blocked queued claimed running succeeded failed canceled : TaskStatus

pub data Environment : Type 0 where
  research staging live : Environment

pub record PolicyContext : Type 0 where
  pub requires_approval : Option Bool
  pub live_impact : Option Bool
  pub target_environment : Option Environment

pub data ApprovalStatus : Type 0 where
  was_approved was_rejected was_expired was_canceled : ApprovalStatus

pub data TombstoneReason : Type 0 where
  on_failure on_cancel on_timeout on_dead_letter on_worker_lost : TombstoneReason

-- `getTaskRequeueReason`'s texts, with the values that they print.
pub data RequeueReason : Type 0 where
  worker_stale : String → RequeueReason
  threshold_exceeded : ℕ → RequeueReason

-- A text that the broker composes is kept as its template with the values that it prints.
pub data Message : Type 0 where
  said : String → Message
  approval_id : String → Message
  reassigned_to : String → String → String → String → Message
  dead_letter : ℕ → RequeueReason → Message
  requeue : TaskStatus → ℕ → RequeueReason → Message
  tombstone_of : TombstoneReason → Message
  decided : ApprovalStatus → Message → Message
  approval_of : ApprovalStatus → Message
  intent_of : Intent → Message

-- The details that the broker records when a task runs out of requeues, or the ones a worker sent.
pub data ErrorDetails : Type 0 where
  exhausted : ℕ → ℕ → TaskStatus → RequeueReason → ErrorDetails
  sent : String → ErrorDetails

pub record TaskError : Type 0 where
  pub code : Option String
  pub message : Message
  pub details : Option ErrorDetails

-- Of a result, the parts that go to a proposal (`output`, `validation`, `apply`) are left out.
pub record TaskResult : Type 0 where
  pub summary : Option String
  pub note : Option String
  pub artifact_ids : List String

pub record Cancellation : Type 0 where
  pub requested_at : ℕ
  pub requested_by : String
  pub reason : Option Message
  pub source_task_id : Option String

pub record Approval : Type 0 where
  pub approval_id : String
  pub approved_at : ℕ
  pub approved_by : String
  pub actor_role : Option Role
  pub requester_role : Option Role
  pub reason : Option String

pub record ApprovalOutcome : Type 0 where
  pub status : ApprovalStatus
  pub approval_id : String
  pub decided_at : ℕ
  pub decided_by : String
  pub actor_role : Option Role
  pub requester_role : Option Role
  pub reason : Option Message

pub record TaskRecord : Type 0 where
  pub id : String
  pub exchange_id : Option String
  pub parent_task_id : Option String
  pub intent : Intent
  pub requester : Party
  pub target : Party
  pub target_node_id : String
  pub assigned_worker_id : Option String
  pub message : Option String
  pub proposal_id : Option String
  pub policy_context : Option PolicyContext
  pub status : TaskStatus
  pub created_at : ℕ
  pub updated_at : ℕ
  pub claimed_at : Option ℕ
  pub completed_at : Option ℕ
  pub claimed_by : Option String
  pub result : Option TaskResult
  pub error : Option TaskError
  pub cancellation : Option Cancellation
  pub approval : Option Approval
  pub approval_outcome : Option ApprovalOutcome
  pub requeue_count : Option ℕ
  pub last_heartbeat_at : Option ℕ
  pub attempt_id : Option String
  pub broker_of_record : Option String
  pub team_id : Option String

-- A worker registers with more than this; the task operations read these fields.
pub record Worker : Type 0 where
  pub node_id : String
  pub role : Role
  pub last_seen_at : ℕ

pub data ExchangeStatus : Type 0 where
  exchange_queued exchange_running exchange_completed exchange_failed : ExchangeStatus

-- The fields of an exchange that follow its active task.
pub record Exchange : Type 0 where
  pub id : String
  pub target : Party
  pub target_node_id : String
  pub assigned_worker_id : Option String
  pub status : ExchangeStatus
  pub active_task_id : Option String
  pub updated_at : ℕ

pub record Tombstone : Type 0 where
  pub task_id : String
  pub terminal_status : TaskStatus
  pub tombstone_reason : TombstoneReason
  pub created_at : ℕ
  pub completed_at : ℕ
  pub requeue_count : ℕ
  pub error : Option TaskError
  pub result : Option TaskResult
  pub tombstoned_at : ℕ
  pub actor_id : Option String
  pub cancel_reason : Option Message

pub data AuditAction : Type 0 where
  proposal_created artifact_attached validation_submitted proposal_approved : AuditAction
  proposal_rejected proposal_applied exchange_message_added : AuditAction
  task_created task_approved task_approval_rejected task_claimed task_started : AuditAction
  task_heartbeat task_reassigned task_requeued task_succeeded task_failed : AuditAction
  task_canceled task_updated task_tombstoned : AuditAction
  wake_was_planned wake_was_scheduled wake_was_skipped wake_had_failed : AuditAction
  worker_registered worker_heartbeat cleanup_applied : AuditAction

pub record AuditEvent : Type 0 where
  pub id : String
  pub actor_id : String
  pub action : AuditAction
  pub target_id : String
  pub proposal_id : Option String
  pub note : Option Message
  pub created_at : ℕ

pub data UpdateReason : Type 0 where
  created approved was_claimed started update_succeeded update_failed update_canceled : UpdateReason
  updated reassigned requeued dead_lettered : UpdateReason
  wake_planned wake_scheduled wake_skipped wake_failed : UpdateReason

pub record TaskUpdate : Type 0 where
  pub task : TaskRecord
  pub reason : UpdateReason
  pub final : Bool
  pub seq : ℕ

-- `isTerminalTaskStatus`
abbrev pub is_terminal : TaskStatus → Bool
is_terminal succeeded = true
is_terminal failed = true
is_terminal canceled = true
is_terminal _ = false
