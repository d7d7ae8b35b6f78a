-- ===== src/Broker/Sessions.antt =====
-- Runs of the broker with its retention policy: persistState before, between and after the calls.
use a2a_broker.Prelude.{◌≡◌, refl, true, false, List, [], ◌∷◌, none, some, map, ◌++◌}
use a2a_broker.Prelude.Dict
use a2a_broker.Retention.Records.{TargetType}
use a2a_broker.Retention.Selection.{select_retained_ids, split, is_kept}
use a2a_broker.Broker.Samples.{parent_task, old_task, start_broker}
use a2a_broker.Broker.Examples.{story}
use a2a_broker.Broker.Operations.{claim}
use a2a_broker.Broker.Persistence.{
  Outside, Session, Step, calls, persists, live, persist_state, apply_retention,
}

abbrev outside : Outside
outside = record {
  policy = record {
    terminal_retention_ms = 100;
    max_terminal_exchanges = 0;
    max_terminal_tasks = 0;
    max_terminal_proposals = 0;
    inactive_worker_retention_ms = 100;
    max_inactive_workers = 0;
    audit_retention_ms = 100;
    max_audit_events = 0;
    max_heartbeat_audit_events = 0;
  };
  iso = λ n. "a time";
  parse_date = λ text. some 10;
  not_after = λ a b. true;
  others = record {
    exchanges = [];
    exchange_messages = [];
    tasks = [];
    proposals = [];
    artifacts = [];
    validations = [];
    workers = [];
    audit_events = [];
  };
  artifact_ids = λ t. [];
  result_artifact_ids = λ t. [];
  target_type = λ e. TargetType.task;
}

-- persistState on its hot path, the calls of the story, persistState on its full path, and a late call.
abbrev steps : List Step
steps =
    persists outside true 1 1000 ∷ map calls story
    ++ persists outside false 300001 1000 ∷ calls (claim "child" "w1") ∷ []

abbrev session : Session
session = record { broker = start_broker; last_full_retention_persist_at = 0 }

-- The policy drops the old task before the story begins, and keeps the one that is not over.
drops_old :
    (Dict.get (live (persists outside false 1 1000 ∷ []) session).broker.tasks "old" ≡ none)
    × (Dict.get (live (persists outside false 1 1000 ∷ []) session).broker.tasks "parent"
        ≡ some parent_task)
unfolding live persist_state apply_retention select_retained_ids split is_kept Dict.get
drops_old = (refl, refl)

-- The hot path drops nothing.
hot_keeps_old :
    Dict.get (live (persists outside true 1 1000 ∷ []) session).broker.tasks "old" ≡ some old_task
unfolding live persist_state Dict.get
hot_keeps_old = refl
