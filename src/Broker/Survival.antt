-- ===== src/Broker/Survival.antt =====
-- What outlives operations and the retention policy between them.
use mathlib.Core.Option
use a2a_broker.Prelude.{ℕ, ◌≡◌, String, true, List, ◌∷◌, none, some, ◌++◌}
use a2a_broker.Prelude.Dict
use a2a_broker.Prelude.Dict.{Dict}
use a2a_broker.Retention.Policy.{kept_tasks}
use a2a_broker.Broker.Types.{TaskRecord, is_terminal}
use a2a_broker.Broker.State.{Broker}
use a2a_broker.Broker.Persistence.{Outside, Session, Step, take_step, live, store_of}

-- The ids of the tasks that the policy keeps.
abbrev kept_ids : Outside → ℕ → Broker → List String
kept_ids o now b = kept_tasks o.parse_date o.not_after o.policy now (store_of o b)

-- What became of the task under a key by the end of the steps: it is stored still, or one of the steps
-- dropped it, and what was stored just before that step was over; `P` holds of the last record.
pub data Fate (P : TaskRecord → Type 0) (k : String) (steps : List Step) (s : Session)
    : Type 0 where
  stays :
      (u : TaskRecord) → Dict.get (live steps s).broker.tasks k ≡ some u → P u → Fate P k steps s
  dropped :
      (before after : List Step) (step : Step) (u : TaskRecord)
      → steps ≡ before ++ step ∷ after
      → Dict.get (live before s).broker.tasks k ≡ some u
      → is_terminal u.status ≡ true
      → P u
      → Dict.get (take_step step (live before s)).broker.tasks k ≡ none
      → Dict.get (live steps s).broker.tasks k ≡ none
      → Fate P k steps s
