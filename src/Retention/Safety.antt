-- ===== src/Retention/Safety.antt =====
-- What the retention policy never prunes.
use a2a_broker.Prelude.{
  ℕ, ◌≡◌, refl, ◌∙◌, subst, String, Bool, true, not, ◌||◌, List, [], ◌∷◌, ◌++◌, Option, some, arith,
  one_of, All, eq_refl,
}
use a2a_broker.Prelude.Dict
use a2a_broker.Prelude.Dict.{Dict}
use a2a_broker.Broker.Types.{is_terminal}
use a2a_broker.Retention.Records.{Exchange, Task, Store, RetentionPolicy, is_terminal_exchange}
use a2a_broker.Retention.Selection.{parse_time, is_recent}
use a2a_broker.Retention.Policy.{
  apply_retention_policy, kept_tasks, kept_exchanges, kept_proposals, all_exchanges, task_time,
  task_exchange, task_proposal, task_workers, exchange_workers, proposal_workers, collect,
  prune_map_entries, given_id,
}
use a2a_broker.Retention.Keeps.{
  select-keeps, select-protects, get-prune, collect-gives, one_of-append_left, one_of-append_right,
}

-- Every record is filed under its own id, as `set` files it.
pub record IsFiled (s : Store) : Type 0 where
  pub tasks : Dict.Holds (λ k t. t.id ≡ k) s.tasks
  pub exchanges : Dict.Holds (λ k x. x.id ≡ k) s.exchanges
  pub proposals : Dict.Holds (λ k p. p.id ≡ k) s.proposals
  pub workers : Dict.Holds (λ k w. w.node_id ≡ k) s.workers
  pub audit_events : Dict.Holds (λ k e. e.id ≡ k) s.audit_events

pub kept-survives {ℓ} :
    {V : Type ℓ} (m : Dict V) (ids : List String) (k : String)
    → one_of ids k ≡ true
    → Dict.get (prune_map_entries m ids) k ≡ Dict.get m k
kept-survives m ids k h = get-prune m ids k ∙ rw h refl

survive-All {ℓ} :
    {V : Type ℓ} (m : Dict V) (ids keys : List String)
    → ((a : String) → one_of keys a ≡ true → one_of ids a ≡ true)
    → All (λ k. Dict.get (prune_map_entries m ids) k ≡ Dict.get m k) keys
survive-All m ids [] h = tt
survive-All m ids (k ∷ keys) h = (
  kept-survives m ids k (h k (ground (arith, eq_refl k))),
  survive-All m ids keys (λ a g. h a (ground (arith, g))),
)

pub survives-kept {ℓ} :
    {V : Type ℓ} (m : Dict V) (ids : List String) (k : String) (v : V)
    → Dict.get (prune_map_entries m ids) k ≡ some v
    → (one_of ids k ≡ true) × (Dict.get m k ≡ some v)
survives-kept m ids k v h = ground (arith, get-prune m ids k, h)

module _ (parse_date : String → Option ℕ) (not_after : String → String → Bool)
    (policy : RetentionPolicy) (now : ℕ) (s : Store) where
  abbrev pub live_task : Task → Bool
  live_task t =
      not (is_terminal t.status)
      || is_recent now policy.terminal_retention_ms (parse_time parse_date (task_time t))

  abbrev pub live_exchange : Exchange → Bool
  live_exchange x =
      not (is_terminal_exchange x.status)
      || is_recent now policy.terminal_retention_ms (parse_time parse_date x.updated_at)

  abbrev pub after : Store
  after = apply_retention_policy parse_date not_after policy now s

  pub kept_task-one_of :
      (k : String) (t : Task)
      → Dict.Holds (λ k t. t.id ≡ k) s.tasks
      → Dict.get s.tasks k ≡ some t
      → live_task t ≡ true
      → one_of (kept_tasks parse_date not_after policy now s) k ≡ true
  kept_task-one_of k t filed found live =
      subst (λ i. one_of (kept_tasks parse_date not_after policy now s) i ≡ true) (filed k t found)
        (select-keeps _ _ _ now policy.terminal_retention_ms not_after _ policy.max_terminal_tasks
          (Dict.values s.tasks) t (Dict.get-values s.tasks k t found) live)

  -- Where records are filed under their ids, the policy keeps every task that is not over, or that was
  -- over within the retention time, or whose time cannot be read.
  pub apply_retention_policy-keeps_task :
      (k : String) (t : Task)
      → IsFiled s
      → Dict.get s.tasks k ≡ some t
      → live_task t ≡ true
      → Dict.get after.tasks k ≡ some t
  unfolding apply_retention_policy
  apply_retention_policy-keeps_task k t filed found live =
      kept-survives s.tasks (kept_tasks parse_date not_after policy now s) k
        (kept_task-one_of k t filed.tasks found live)
      ∙ found

  -- Where records are filed under their ids, the policy keeps every exchange that is not over, or that
  -- was over within the retention time, or whose time cannot be read, and with it its active task and
  -- the records of its workers, where the broker has them.
  pub apply_retention_policy-keeps_exchange :
      (k : String) (x : Exchange)
      → IsFiled s
      → Dict.get s.exchanges k ≡ some x
      → live_exchange x ≡ true
      → (Dict.get after.exchanges k ≡ some x)
        × All (λ id. Dict.get after.tasks id ≡ Dict.get s.tasks id) (given_id x.active_task_id)
        × All (λ id. Dict.get after.workers id ≡ Dict.get s.workers id) (exchange_workers x)
  unfolding apply_retention_policy
  apply_retention_policy-keeps_exchange k x filed found live =
      let first : one_of (kept_exchanges parse_date not_after policy now s) k ≡ true =
        subst (λ i. one_of (kept_exchanges parse_date not_after policy now s) i ≡ true)
          (filed.exchanges k x found)
          (select-keeps _ _ _ now policy.terminal_retention_ms not_after _
            policy.max_terminal_exchanges (Dict.values s.exchanges) x
            (Dict.get-values s.exchanges k x found) live) in
      let kept : one_of (all_exchanges parse_date not_after policy now s) k ≡ true =
        one_of-append_left _ _ k first in
      (
        kept-survives s.exchanges _ k kept ∙ found,
        survive-All s.tasks _ (given_id x.active_task_id) (λ a h.
            select-protects _ _ _ now policy.terminal_retention_ms not_after _
              policy.max_terminal_tasks (Dict.values s.tasks) a
              (collect-gives (λ (y : Exchange). given_id y.active_task_id) s.exchanges _ k a x first
                found h)),
        survive-All s.workers _ (exchange_workers x) (λ a h.
            select-protects _ _ _ now policy.inactive_worker_retention_ms not_after _
              policy.max_inactive_workers (Dict.values s.workers) a
              (one_of-append_left _ _ a (
                one_of-append_left _ _ a
                  (collect-gives exchange_workers s.exchanges _ k a x kept found h)))),
      )

  -- Whatever a task that the policy keeps names is kept too, where the broker has it: its exchange, its
  -- proposal, and the records of its target, its assigned worker and the worker that claimed it.
  pub apply_retention_policy-closed :
      (k : String) (t : Task)
      → Dict.get after.tasks k ≡ some t
      → All (λ id. Dict.get after.exchanges id ≡ Dict.get s.exchanges id) (task_exchange t)
        × All (λ id. Dict.get after.proposals id ≡ Dict.get s.proposals id) (task_proposal t)
        × All (λ id. Dict.get after.workers id ≡ Dict.get s.workers id) (task_workers t)
  unfolding apply_retention_policy
  apply_retention_policy-closed k t stays =
      let (kept, found) =
        survives-kept s.tasks (kept_tasks parse_date not_after policy now s) k t stays in
      let xw : List String =
        collect exchange_workers s.exchanges (all_exchanges parse_date not_after policy now s) in
      let tw : List String =
        collect task_workers s.tasks (kept_tasks parse_date not_after policy now s) in
      let pw : List String =
        collect proposal_workers s.proposals (kept_proposals parse_date not_after policy now s) in
      (
        survive-All s.exchanges _ (task_exchange t) (λ a h.
            one_of-append_right _ _ a (collect-gives task_exchange s.tasks _ k a t kept found h)),
        survive-All s.proposals _ (task_proposal t) (λ a h.
            select-protects _ _ _ now policy.terminal_retention_ms not_after _
              policy.max_terminal_proposals (Dict.values s.proposals) a
              (collect-gives task_proposal s.tasks _ k a t kept found h)),
        survive-All s.workers _ (task_workers t) (λ a h.
            select-protects _ _ _ now policy.inactive_worker_retention_ms not_after _
              policy.max_inactive_workers (Dict.values s.workers) a
              (one_of-append_left (xw ++ tw) pw a (
                one_of-append_right xw tw a
                  (collect-gives task_workers s.tasks _ k a t kept found h)))),
      )
