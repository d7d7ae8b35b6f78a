-- ===== src/Broker/Guards.antt =====
-- src/core/broker.ts: the checks that stand before the task operations.
use a2a_broker.Prelude.{
  String, Bool, true, false, Option, none, some, not, ◌&&◌, ◌==◌, or_else, if◌then◌else◌,
}
use a2a_broker.Prelude.Exec.{ok, err, throw_if, ◌>>=◌, ◌>>◌}
use a2a_broker.Prelude.Trim.{normalize_string}
use a2a_broker.Broker.Types.{
  TaskStatus, blocked, queued, claimed, running, Role, hub, operator, Party, TaskRecord,
}
use a2a_broker.Broker.State.{Action, bad_request, policy_denied, require_worker}

-- Whether two optional texts are the same, as `===` compares them.
abbrev pub same_text : Option String → Option String → Bool
same_text none none = true
same_text (some a) (some b) = a == b
same_text _ _ = false

-- `task.policyContext?.requiresApproval === true`
abbrev pub requires_approval : TaskRecord → Bool
requires_approval t = elim t.policy_context [
  | none ↦ false
  | some c ↦ or_else c.requires_approval false
]

-- `actor?.role === "operator" || actor?.role === "hub"`
abbrev pub is_privileged : Option Role → Bool
is_privileged (some hub) = true
is_privileged (some operator) = true
is_privileged _ = false

-- One half of `assertTaskOwnership`: a task that names an owner needs a broker with that name.
abbrev pub owner_differs : Option String → Option String → Bool
owner_differs none ours = false
owner_differs (some owner) ours = not (same_text ours (some owner))

-- `assertTaskOwnership`
unfoldable pub assert_task_ownership : TaskRecord → Action (Unit {0})
assert_task_ownership t b =
    (do
      throw_if (owner_differs (normalize_string t.broker_of_record) b.broker_id) policy_denied
      throw_if (owner_differs (normalize_string t.team_id) b.team_id) policy_denied)
      b

-- `task.claimedBy && task.claimedBy !== workerId`
abbrev pub claimed_by_other : TaskRecord → String → Bool
claimed_by_other t worker = elim t.claimed_by [
  | none ↦ false
  | some holder ↦ not (holder == "") && not (holder == worker)
]

-- `assertTaskWorker`
unfoldable pub assert_task_worker : TaskRecord → String → Action (Unit {0})
unfolding assert_task_ownership require_worker
assert_task_worker t worker = do
  assert_task_ownership t
  _ ← require_worker worker
  throw_if (not (worker == or_else t.assigned_worker_id t.target_node_id)) policy_denied
  throw_if (claimed_by_other t worker) policy_denied

abbrev pub is_queued : TaskStatus → Bool
is_queued queued = true
is_queued _ = false

abbrev pub is_claimed : TaskStatus → Bool
is_claimed claimed = true
is_claimed _ = false

-- `["claimed", "running"].includes(status)`
abbrev pub is_active : TaskStatus → Bool
is_active claimed = true
is_active running = true
is_active _ = false

-- `status === "blocked" || status === "queued"`
abbrev pub is_waiting : TaskStatus → Bool
is_waiting blocked = true
is_waiting queued = true
is_waiting _ = false

-- `if (!request.actor?.id) throw new BrokerError("bad_request", …)`
abbrev pub actor_or_throw : Option Party → Action Party
actor_or_throw none b = (err bad_request, b)
actor_or_throw (some p) b = if p.id == "" then (err bad_request, b) else (ok p, b)
