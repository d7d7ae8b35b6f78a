-- ===== src/Retention/Policy.antt =====
-- `applyRetentionPolicy`, with the collections of ids that it protects.
use a2a_broker.Prelude.{
  ℕ, String, Bool, true, false, not, ◌||◌, ◌&&◌, List, [], ◌∷◌, ◌++◌, Option, none, some, or_else,
  filter, map, one_of, ◌==◌, if◌then◌else◌, take, leb, ◌+◌,
}
use a2a_broker.Prelude.Dict
use a2a_broker.Prelude.Dict.{Dict}
use a2a_broker.Broker.Types.{is_terminal}
use a2a_broker.Retention.Records.{
  Exchange, Task, Proposal, AuditEvent, Store, RetentionPolicy, is_terminal_exchange,
  is_terminal_proposal, is_heartbeat, TargetType,
}
use a2a_broker.Retention.Selection.{parse_time, Candidate, select_retained_ids, sorted_copy}

-- An id that is truthy, as a list.
abbrev pub given_id : Option String → List String
given_id none = []
given_id (some id) = if id == "" then [] else id ∷ []

abbrev pub from_record {ℓ} : {V : Type ℓ} → (V → List String) → Option V → List String
from_record f none = []
from_record f (some v) = f v

-- What the records of some ids give, of those that the map has.
abbrev pub collect {ℓ} : {V : Type ℓ} → (V → List String) → Dict V → List String → List String
collect f m [] = []
collect f m (id ∷ ids) = from_record f (Dict.get m id) ++ collect f m ids

-- `pruneMapEntries`
abbrev pub prune_map_entries {ℓ} : {V : Type ℓ} → Dict V → List String → Dict V
prune_map_entries [] ids = []
prune_map_entries ((k, v) ∷ m) ids =
    let rest = prune_map_entries m ids in if one_of ids k then (k, v) ∷ rest else rest

abbrev pub task_time : Task → String
task_time t = or_else t.completed_at t.updated_at

abbrev pub exchange_workers : Exchange → List String
exchange_workers x = x.target_node_id ∷ given_id x.assigned_worker_id ++ x.target.id ∷ []

abbrev pub task_workers : Task → List String
task_workers t =
    t.target_node_id ∷ t.target.id ∷ given_id t.assigned_worker_id ++ given_id t.claimed_by

abbrev pub proposal_workers : Proposal → List String
proposal_workers p = p.source_node_id ∷ p.target_node_id ∷ p.source.id ∷ p.target.id ∷ []

-- `collectRetainedArtifactIds`
abbrev pub retained_artifact_ids : Store → List String → List String → List String
retained_artifact_ids s tasks proposals =
    collect (λ p. p.artifact_ids) s.proposals proposals
    ++ map (λ a. a.id) (filter (λ a. one_of proposals a.proposal_id) (Dict.values s.artifacts))
    ++ collect (λ t. t.artifact_ids ++ t.result_artifact_ids) s.tasks tasks

-- `collectRetainedValidationIds`
abbrev pub retained_validation_ids : Store → List String → List String
retained_validation_ids s proposals =
    map (λ v. v.id) (filter (λ v. one_of proposals v.proposal_id) (Dict.values s.validations))

-- `collectRetainedExchangeMessageIds`
abbrev pub retained_message_ids : Store → List String → List String
retained_message_ids s exchanges =
    map (λ m. m.id) (filter (λ m. one_of exchanges m.exchange_id) (Dict.values s.exchange_messages))

-- `collectProtectedWorkerIds`
abbrev pub protected_worker_ids : Store → List String → List String → List String → List String
protected_worker_ids s exchanges tasks proposals =
    collect exchange_workers s.exchanges exchanges
    ++ collect task_workers s.tasks tasks
    ++ collect proposal_workers s.proposals proposals

-- The ids that the policy keeps of each map.
pub record Retained : Type 0 where
  pub exchanges : List String
  pub messages : List String
  pub tasks : List String
  pub proposals : List String
  pub artifacts : List String
  pub validations : List String
  pub workers : List String

-- `params.retained….has(event.targetId)` by the target's type
abbrev pub has_target : Retained → TargetType → String → Bool
has_target kept TargetType.proposal id = one_of kept.proposals id
has_target kept TargetType.artifact id = one_of kept.artifacts id
has_target kept TargetType.validation id = one_of kept.validations id
has_target kept TargetType.worker id = one_of kept.workers id
has_target kept TargetType.task id = one_of kept.tasks id
has_target kept TargetType.exchange id = one_of kept.exchanges id
has_target kept TargetType.exchange_message id = one_of kept.messages id
has_target kept TargetType.broker id = false

abbrev pub names_proposal : Retained → Option String → Bool
names_proposal kept none = false
names_proposal kept (some id) = not (id == "") && one_of kept.proposals id

-- `isAuditEventRetained`
unfoldable pub is_audit_event_retained : Retained → AuditEvent → Bool
is_audit_event_retained kept e =
    not (is_heartbeat e.action e.target_type)
    && (names_proposal kept e.proposal_id || has_target kept e.target_type e.target_id)

pub record AuditSplit : Type 0 where
  pub kept : List String
  pub meaningful : List Candidate
  pub heartbeats : List Candidate

abbrev pub with_candidate : Bool → Candidate → AuditSplit → AuditSplit
with_candidate true c s = record s { heartbeats = c ∷ s.heartbeats }
with_candidate false c s = record s { meaningful = c ∷ s.meaningful }

abbrev pub keep_event : AuditEvent → AuditSplit → AuditSplit
keep_event e s = record s { kept = e.id ∷ s.kept }

-- What the loop does with an event, by whether it is retained and by its time.
abbrev pub sort_event : Bool → Option ℕ → AuditEvent → AuditSplit → AuditSplit
sort_event true time e s = keep_event e s
sort_event false none e s = keep_event e s
sort_event false (some t) e s =
    with_candidate (is_heartbeat e.action e.target_type) (record { id = e.id; timestamp = t }) s

-- The loop of `selectRetainedAuditEventIds`.
abbrev pub split_audit : (String → Option ℕ) → Retained → List AuditEvent → AuditSplit
split_audit parse_date kept [] = record { kept = []; meaningful = []; heartbeats = [] }
split_audit parse_date kept (e ∷ es) =
    sort_event (is_audit_event_retained kept e) (parse_time parse_date e.created_at) e
      (split_audit parse_date kept es)

-- `retainRecentCandidates`
abbrev pub recent_candidates : (String → String → Bool) → ℕ → ℕ → ℕ → List Candidate → List String
recent_candidates not_after now retention limit candidates =
    map (λ c. c.id)
      (take limit
        (filter (λ c. leb now (c.timestamp + retention)) (sorted_copy not_after candidates)))

-- `selectRetainedAuditEventIds`
abbrev pub select_audit_ids :
    (String → Option ℕ)
    → (String → String → Bool)
    → RetentionPolicy
    → ℕ
    → Retained
    → List AuditEvent
    → List String
select_audit_ids parse_date not_after policy now kept events =
    let s = split_audit parse_date kept events in
    s.kept
    ++ recent_candidates not_after now policy.audit_retention_ms policy.max_audit_events
        s.meaningful
    ++ recent_candidates not_after now policy.audit_retention_ms policy.max_heartbeat_audit_events
        s.heartbeats

abbrev pub task_exchange : Task → List String
task_exchange t = given_id t.exchange_id

abbrev pub task_proposal : Task → List String
task_proposal t = given_id t.proposal_id

module _ (parse_date : String → Option ℕ) (not_after : String → String → Bool)
    (policy : RetentionPolicy) (now : ℕ) (s : Store) where
  -- The exchanges that are kept for themselves.
  abbrev pub kept_exchanges : List String
  kept_exchanges =
      select_retained_ids (λ x. is_terminal_exchange x.status) (λ x. x.id)
        (λ x. parse_time parse_date x.updated_at) now policy.terminal_retention_ms not_after []
        policy.max_terminal_exchanges (Dict.values s.exchanges)

  abbrev pub kept_tasks : List String
  kept_tasks =
      select_retained_ids (λ t. is_terminal t.status) (λ t. t.id)
        (λ t. parse_time parse_date (task_time t)) now policy.terminal_retention_ms not_after
        (collect (λ x. given_id x.active_task_id) s.exchanges kept_exchanges)
        policy.max_terminal_tasks (Dict.values s.tasks)

  abbrev pub kept_proposals : List String
  kept_proposals =
      select_retained_ids (λ p. is_terminal_proposal p.status) (λ p. p.id)
        (λ p. parse_time parse_date p.updated_at) now policy.terminal_retention_ms not_after
        (collect task_proposal s.tasks kept_tasks) policy.max_terminal_proposals
        (Dict.values s.proposals)

  -- The exchanges of the kept tasks are kept too.
  abbrev pub all_exchanges : List String
  all_exchanges = kept_exchanges ++ collect task_exchange s.tasks kept_tasks

  abbrev pub kept_workers : List String
  kept_workers =
      select_retained_ids (λ w. true) (λ w. w.node_id) (λ w. parse_time parse_date w.last_seen_at)
        now policy.inactive_worker_retention_ms not_after
        (protected_worker_ids s all_exchanges kept_tasks kept_proposals) policy.max_inactive_workers
        (Dict.values s.workers)

  abbrev pub retained : Retained
  retained = record {
    exchanges = all_exchanges;
    messages = retained_message_ids s all_exchanges;
    tasks = kept_tasks;
    proposals = kept_proposals;
    artifacts = retained_artifact_ids s kept_tasks kept_proposals;
    validations = retained_validation_ids s kept_proposals;
    workers = kept_workers;
  }

  unfoldable pub apply_retention_policy : Store
  apply_retention_policy = record {
    exchanges = prune_map_entries s.exchanges retained.exchanges;
    exchange_messages = prune_map_entries s.exchange_messages retained.messages;
    tasks = prune_map_entries s.tasks retained.tasks;
    proposals = prune_map_entries s.proposals retained.proposals;
    artifacts = prune_map_entries s.artifacts retained.artifacts;
    validations = prune_map_entries s.validations retained.validations;
    workers = prune_map_entries s.workers retained.workers;
    audit_events =
        prune_map_entries s.audit_events
          (select_audit_ids parse_date not_after policy now retained (Dict.values s.audit_events));
  }
