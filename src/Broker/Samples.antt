-- ===== src/Broker/Samples.antt =====
-- A small broker: two workers, a task that waits, its child, and a finished one.
use a2a_broker.Prelude.{ℕ, String, [], ◌∷◌, some, none, Option, ◌+◌}
use a2a_broker.Broker.Types.{
  TaskRecord, Party, Worker, operator, analyst, analyze, queued, succeeded, node, TaskStatus,
}
use a2a_broker.Broker.State.{Broker}

abbrev pub boss : Party
boss = record { id = "boss"; kind = none; role = some operator }

abbrev pub task_of : String → Option String → TaskStatus → Option ℕ → TaskRecord
task_of id parent status ended = record {
  id = id;
  exchange_id = none;
  parent_task_id = parent;
  intent = analyze;
  requester = boss;
  target = record { id = "w1"; kind = some node; role = some analyst };
  target_node_id = "w1";
  assigned_worker_id = some "w1";
  message = none;
  proposal_id = none;
  policy_context = none;
  status = status;
  created_at = 1;
  updated_at = 1;
  claimed_at = none;
  completed_at = ended;
  claimed_by = none;
  result = none;
  error = none;
  cancellation = none;
  approval = none;
  approval_outcome = none;
  requeue_count = none;
  last_heartbeat_at = none;
  attempt_id = none;
  broker_of_record = none;
  team_id = none;
}

abbrev pub parent_task : TaskRecord
parent_task = task_of "parent" none queued none

abbrev pub child_task : TaskRecord
child_task = task_of "child" (some "parent") queued none

abbrev pub old_task : TaskRecord
old_task = task_of "old" none succeeded (some 1)

abbrev pub worker_of : String → String × Worker
worker_of id = (id, record { node_id = id; role = analyst; last_seen_at = 1 })

abbrev pub start_broker : Broker
start_broker = record {
  tasks = ("parent", parent_task) ∷ ("child", child_task) ∷ ("old", old_task) ∷ [];
  workers = worker_of "w1" ∷ worker_of "w2" ∷ [];
  exchanges = [];
  tombstones = [];
  audit_events = [];
  listeners = ("parent", "dashboard" ∷ []) ∷ [];
  event_seqs = [];
  event_buffers = [];
  delivered = [];
  heartbeat_audits = [];
  broker_id = none;
  team_id = none;
  max_requeue_attempts = 2;
  max_buffered_events = 3;
  heartbeat_audit_interval = 60;
  clock = λ n. n + 10;
  readings = 0;
  ids = λ n. "id";
  drawn = 0;
}
