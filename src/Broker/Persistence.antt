-- ===== src/Broker/Persistence.antt =====
-- src/core/broker.ts, `persistState`, which every operation calls when it has changed its records. Its hot
-- path only hands records to the store; its full path first applies the retention policy of
-- a2a_broker.Retention to the broker's maps. Here it is a step of its own, which may come before and after
-- any operation. After the call an operation only announces its task, and cancelTask writes a tombstone
-- and its audit event; cancelTask makes the call after each task of its walk, and the step stands
-- after the whole walk.
use mathlib.Core.Option
use a2a_broker.Prelude.{ℕ, ◌-◌, String, Bool, List, [], ◌∷◌, Option, ltb, ◌&&◌, if◌then◌else◌}
use a2a_broker.Prelude.Dict
use a2a_broker.Prelude.Dict.{Dict}
use a2a_broker.Retention.Records
use a2a_broker.Retention.Records.{Store, RetentionPolicy, TargetType}
use a2a_broker.Retention.Policy.{retained, select_audit_ids, prune_map_entries}
use a2a_broker.Broker.Types.{
  TaskRecord, Exchange, Worker, AuditEvent, AuditAction, task_heartbeat, worker_heartbeat,
}
use a2a_broker.Broker.State.{Broker}
use a2a_broker.Broker.Operations.{Operation, call}

-- What the policy reads that the broker of this model does not hold: the settings, how a time is printed
-- and read, the maps of messages, proposals, artifacts and validations (those of `others`), and the
-- fields that the model's records leave out.
pub record Outside : Type 0 where
  pub policy : RetentionPolicy
  pub iso : ℕ → String
  pub parse_date : String → Option ℕ
  pub not_after : String → String → Bool
  pub others : Store
  pub artifact_ids : TaskRecord → List String
  pub result_artifact_ids : TaskRecord → List String
  pub target_type : AuditEvent → TargetType

abbrev pub task_of : Outside → TaskRecord → Records.Task
task_of o t = record {
  id = t.id;
  exchange_id = t.exchange_id;
  proposal_id = t.proposal_id;
  status = t.status;
  target = t.target;
  target_node_id = t.target_node_id;
  assigned_worker_id = t.assigned_worker_id;
  claimed_by = t.claimed_by;
  artifact_ids = o.artifact_ids t;
  result_artifact_ids = o.result_artifact_ids t;
  updated_at = o.iso t.updated_at;
  completed_at = Option.map o.iso t.completed_at;
}

abbrev pub exchange_of : Outside → Exchange → Records.Exchange
exchange_of o x = record {
  id = x.id;
  target = x.target;
  target_node_id = x.target_node_id;
  assigned_worker_id = x.assigned_worker_id;
  status = x.status;
  active_task_id = x.active_task_id;
  updated_at = o.iso x.updated_at;
}

abbrev pub worker_of : Outside → Worker → Records.Worker
worker_of o w = record { node_id = w.node_id; last_seen_at = o.iso w.last_seen_at }

abbrev pub action_of : AuditAction → Records.Action
action_of task_heartbeat = Records.Action.task_heartbeat
action_of worker_heartbeat = Records.Action.worker_heartbeat
action_of _ = Records.Action.other_action

abbrev pub audit_of : Outside → AuditEvent → Records.AuditEvent
audit_of o e = record {
  id = e.id;
  action = action_of e.action;
  target_type = o.target_type e;
  target_id = e.target_id;
  proposal_id = e.proposal_id;
  created_at = o.iso e.created_at;
}

abbrev pub map_entries {ℓ κ} : {V : Type ℓ} {W : Type κ} → (V → W) → Dict V → Dict W
map_entries f [] = []
map_entries f ((k, v) ∷ m) = (k, f v) ∷ map_entries f m

-- The broker's maps, as the policy reads them.
abbrev pub store_of : Outside → Broker → Store
store_of o b = record o.others {
  exchanges = map_entries (exchange_of o) b.exchanges;
  tasks = map_entries (task_of o) b.tasks;
  workers = map_entries (worker_of o) b.workers;
  audit_events = map_entries (audit_of o) b.audit_events;
}

-- `applyRetentionPolicy`, on the maps that this broker holds
unfoldable pub apply_retention : Outside → ℕ → Broker → Broker
apply_retention o now b =
    let s : Store = store_of o b in
    let kept = retained o.parse_date o.not_after o.policy now s in
    record b {
      tasks = prune_map_entries b.tasks kept.tasks;
      exchanges = prune_map_entries b.exchanges kept.exchanges;
      workers = prune_map_entries b.workers kept.workers;
      audit_events = prune_map_entries b.audit_events (
          select_audit_ids o.parse_date o.not_after o.policy now kept (Dict.values s.audit_events));
    }

pub record Session : Type 0 where
  pub broker : Broker
  pub last_full_retention_persist_at : ℕ

abbrev pub hot_persist_full_retention_interval : ℕ
hot_persist_full_retention_interval = 300000

-- `hot`: the store has `saveHotEntities`, and there are hints for it. The clock is read at the start, and
-- by the policy.
unfoldable pub persist_state : Outside → Bool → ℕ → ℕ → Session → Session
unfolding apply_retention
persist_state o hot started now s =
    let since = started - s.last_full_retention_persist_at in
    if hot && ltb since hot_persist_full_retention_interval then s else record {
      broker = apply_retention o now s.broker;
      last_full_retention_persist_at = started;
    }

pub data Step : Type 0 where
  calls : Operation → Step
  persists : Outside → Bool → ℕ → ℕ → Step

unfoldable pub take_step : Step → Session → Session
unfolding call persist_state
take_step (calls op) s = record s { broker = (call op s.broker).1 }
take_step (persists o hot started now) s = persist_state o hot started now s

unfoldable pub live : List Step → Session → Session
unfolding take_step
live [] s = s
live (step ∷ steps) s = live steps (take_step step s)
