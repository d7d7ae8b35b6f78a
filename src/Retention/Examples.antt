-- ===== src/Retention/Examples.antt =====
-- A broker with a queued task, a finished one that is old, and their exchanges and workers.
use a2a_broker.Prelude.{
  ℕ, ◌≡◌, refl, String, Bool, true, [], ◌∷◌, Option, none, some, ◌==◌, All, if◌then◌else◌,
}
use a2a_broker.Prelude.Dict
use a2a_broker.Broker.Types.{Party, queued, succeeded, exchange_queued}
use a2a_broker.Retention.Records.{
  AuditEvent, TargetType, other_action, Exchange, Task, Worker, Store, RetentionPolicy,
}
use a2a_broker.Retention.Selection.{split, is_kept, select_retained_ids}
use a2a_broker.Retention.Policy.{
  apply_retention_policy, task_exchange, task_proposal, task_workers, exchange_workers, given_id,
}
use a2a_broker.Retention.Evidence.{apply_retention_policy-keeps_evidence}
use a2a_broker.Retention.Safety.{
  IsFiled, apply_retention_policy-keeps_task, apply_retention_policy-keeps_exchange,
  apply_retention_policy-closed,
}

-- A calendar with two times.
abbrev parse_date : String → Option ℕ
parse_date text = if text == "old" then some 10 else some 1000

abbrev by_name : String → String → Bool
by_name a b = true

abbrev policy : RetentionPolicy
policy = record {
  terminal_retention_ms = 100;
  max_terminal_exchanges = 0;
  max_terminal_tasks = 0;
  max_terminal_proposals = 0;
  inactive_worker_retention_ms = 100;
  max_inactive_workers = 0;
  audit_retention_ms = 100;
  max_audit_events = 0;
  max_heartbeat_audit_events = 0;
}

abbrev party : Party
party = record { id = "node"; kind = none; role = none }

abbrev waiting : Task
waiting = record {
  id = "t-1";
  exchange_id = some "x-1";
  proposal_id = none;
  status = queued;
  target = party;
  target_node_id = "node";
  assigned_worker_id = some "w-1";
  claimed_by = none;
  artifact_ids = [];
  result_artifact_ids = [];
  updated_at = "old";
  completed_at = none;
}

abbrev done : Task
done = record waiting {
  id = "t-2";
  exchange_id = none;
  status = succeeded;
  assigned_worker_id = some "w-2";
  completed_at = some "old";
}

abbrev exchange : Exchange
exchange = record {
  id = "x-1";
  target = party;
  target_node_id = "node";
  assigned_worker_id = some "w-1";
  status = exchange_queued;
  active_task_id = some "t-1";
  updated_at = "old";
}

abbrev worker : String → Worker
worker id = record { node_id = id; last_seen_at = "old" }

abbrev event : AuditEvent
event = record {
  id = "a-1";
  action = other_action;
  target_type = TargetType.task;
  target_id = "t-1";
  proposal_id = none;
  created_at = "old";
}

abbrev store : Store
store = record {
  exchanges = ("x-1", exchange) ∷ [];
  exchange_messages = [];
  tasks = ("t-1", waiting) ∷ ("t-2", done) ∷ [];
  proposals = [];
  artifacts = [];
  validations = [];
  workers = ("w-1", worker "w-1") ∷ ("w-2", worker "w-2") ∷ [];
  audit_events = ("a-1", event) ∷ [];
}

-- The old task goes, and its worker with it.
prunes :
    ((apply_retention_policy parse_date by_name policy 1000 store).tasks ≡ ("t-1", waiting) ∷ [])
    × ((apply_retention_policy parse_date by_name policy 1000 store).workers
        ≡ ("w-1", worker "w-1") ∷ [])
unfolding apply_retention_policy select_retained_ids split is_kept Dict.get
prunes = (refl, refl)

store-IsFiled : IsFiled store
store-IsFiled = record {
  tasks =
      Dict.Holds-cons _ "t-1" waiting _ refl
        (Dict.Holds-cons _ "t-2" done [] refl (Dict.Holds-nil _));
  exchanges = Dict.Holds-cons _ "x-1" exchange [] refl (Dict.Holds-nil _);
  proposals = Dict.Holds-nil _;
  workers =
      Dict.Holds-cons _ "w-1" (worker "w-1") _ refl
        (Dict.Holds-cons _ "w-2" (worker "w-2") [] refl (Dict.Holds-nil _));
  audit_events = Dict.Holds-cons _ "a-1" event [] refl (Dict.Holds-nil _);
}

abbrev pruned : Store
pruned = apply_retention_policy parse_date by_name policy 1000 store

apply_retention_policy-keeps_task_example : Dict.get pruned.tasks "t-1" ≡ some waiting
unfolding Dict.get
apply_retention_policy-keeps_task_example =
    apply_retention_policy-keeps_task parse_date by_name policy 1000 store "t-1" waiting
      store-IsFiled refl refl

apply_retention_policy-keeps_exchange_example :
    (Dict.get pruned.exchanges "x-1" ≡ some exchange)
    × All (λ id. Dict.get pruned.tasks id ≡ Dict.get store.tasks id) (given_id (some "t-1"))
    × All (λ id. Dict.get pruned.workers id ≡ Dict.get store.workers id) (exchange_workers exchange)
unfolding Dict.get
apply_retention_policy-keeps_exchange_example =
    apply_retention_policy-keeps_exchange parse_date by_name policy 1000 store "x-1" exchange
      store-IsFiled refl refl

apply_retention_policy-closed_example :
    All (λ id. Dict.get pruned.exchanges id ≡ Dict.get store.exchanges id) (task_exchange waiting)
    × All (λ id. Dict.get pruned.proposals id ≡ Dict.get store.proposals id) (task_proposal waiting)
    × All (λ id. Dict.get pruned.workers id ≡ Dict.get store.workers id) (task_workers waiting)
unfolding apply_retention_policy select_retained_ids split is_kept Dict.get
apply_retention_policy-closed_example =
    apply_retention_policy-closed parse_date by_name policy 1000 store "t-1" waiting refl

apply_retention_policy-keeps_evidence_example : Dict.get pruned.audit_events "a-1" ≡ some event
unfolding apply_retention_policy select_retained_ids split is_kept Dict.get
apply_retention_policy-keeps_evidence_example =
    apply_retention_policy-keeps_evidence parse_date by_name policy 1000 store "a-1" event waiting
      store-IsFiled refl refl refl refl
