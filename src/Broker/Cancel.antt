-- ===== src/Broker/Cancel.antt =====
-- src/core/broker.ts: cancelling a task with the tasks below it, and rejecting an approval.
use a2a_broker.Prelude.{
  ℕ, zero, suc, String, Bool, true, false, List, [], ◌∷◌, Option, none, some, not, ◌||◌, ◌==◌,
  or_else, is_some, leb, filter, map, length, if◌then◌else◌, one_of,
}
use a2a_broker.Prelude.Dict
use a2a_broker.Prelude.Exec.{ok, pure, throw_if, ◌>>=◌, ◌>>◌}
use a2a_broker.Prelude.Trim.{normalize_string}
use a2a_broker.Broker.Types.{
  canceled, TaskRecord, Party, Message, decided, approval_of, ApprovalStatus, was_expired,
  was_canceled, was_approved, task_canceled, task_approval_rejected, update_canceled, on_cancel,
  exchange_queued, is_terminal, was_rejected,
}
use a2a_broker.Broker.State.{
  Broker, Action, policy_denied, invalid_transition, now, require_task, set_task, append_audit,
  write_tombstone, commit_task,
}
use a2a_broker.Broker.Guards.{requires_approval, is_waiting, is_privileged, actor_or_throw}
use a2a_broker.Broker.Tasks.{said_option, id_or_fresh}

pub record CancelParams : Type 0 where
  pub actor_id : String
  pub reason : Option Message
  pub source_task_id : Option String

-- `cancelTaskRecord`
unfoldable pub cancel_task_record : TaskRecord → CancelParams → Action TaskRecord
cancel_task_record t params = do
  at ← now
  let t' = record t {
    status = canceled;
    claimed_by = none;
    claimed_at = none;
    completed_at = some at;
    updated_at = at;
    result = none;
    error = none;
    cancellation = some (record {
      requested_at = at;
      requested_by = params.actor_id;
      reason = params.reason;
      source_task_id = params.source_task_id;
    });
  }
  commit_task t' exchange_queued params.actor_id task_canceled params.reason update_canceled
  write_tombstone t' on_cancel (some params.actor_id) params.reason
  pure t'

-- `sortedCopy(..., sortNewestFirst)`. Its comparison does not tell tasks of one time apart; here
-- the later one of the map comes first among them.
abbrev pub insert_newest : TaskRecord → List TaskRecord → List TaskRecord
insert_newest t [] = t ∷ []
insert_newest t (u ∷ us) =
    let rest = insert_newest t us in if leb u.created_at t.created_at then t ∷ u ∷ us else u ∷ rest

abbrev pub newest_first : List TaskRecord → List TaskRecord → List TaskRecord
newest_first sorted [] = sorted
newest_first sorted (t ∷ ts) = newest_first (insert_newest t sorted) ts

abbrev pub is_child_of : String → TaskRecord → Bool
is_child_of parent t = elim t.parent_task_id [ none ↦ false | some p ↦ p == parent ]

-- `listChildTasks`
unfoldable pub list_child_tasks : Broker → String → List TaskRecord
list_child_tasks b parent = newest_first [] (filter (is_child_of parent) (Dict.values b.tasks))

-- The state of the walk: the ids in `visited`, and the broker.
abbrev pub Walk : Type 0
Walk = List String × Broker

-- Whether the task is over when the loop comes to it. The records of the list are the map's own, so
-- the loop sees what the calls before it have written.
abbrev pub is_over : Broker → String → Bool
is_over b id = elim (Dict.get b.tasks id) [ none ↦ true | some t ↦ is_terminal t.status ]

-- One child: a task that is over is passed by.
abbrev pub cancel_child : (String → Walk → Walk) → String → Walk → Walk
cancel_child cancel id w = if is_over w.1 id then w else cancel id w

-- The loop over the children, for a given way to cancel one of them.
unfoldable pub cancel_children : (String → Walk → Walk) → List String → Walk → Walk
cancel_children cancel [] w = w
cancel_children cancel (id ∷ ids) w = cancel_children cancel ids (cancel_child cancel id w)

abbrev pub cancel_found : Option TaskRecord → CancelParams → Broker → Broker
cancel_found none params b = b
cancel_found (some t) params b = (cancel_task_record t params b).1

-- `cancelTaskTree`, with fuel for the depth of the walk.
unfoldable pub cancel_tree : ℕ → CancelParams → String → Walk → Walk
unfolding cancel_children cancel_task_record list_child_tasks
cancel_tree zero params id w = w
cancel_tree (suc fuel) params id (visited, b) =
    let below = cancel_tree fuel (record params { source_task_id = some id }) in
    if one_of visited id
    then (visited, b)
    else let b' = cancel_found (Dict.get b.tasks id) params b in
      cancel_children below (map (λ t. t.id) (list_child_tasks b' id)) (id ∷ visited, b')

-- The walk visits no task twice, so that the number of tasks bounds its depth.
unfoldable pub cancel_task_tree : TaskRecord → CancelParams → Action TaskRecord
unfolding cancel_tree
cancel_task_tree t params b =
    let (visited, b') = cancel_tree (suc (length (Dict.values b.tasks))) params t.id ([], b) in
    (ok (or_else (Dict.get b'.tasks t.id) t), b')

abbrev pub is_actor : Option String → String → Bool
is_actor none id = false
is_actor (some a) id = a == id

-- The requester, the workers of the task and the operators may cancel it.
abbrev pub may_cancel : TaskRecord → Party → Bool
may_cancel t p =
    is_privileged p.role
    || p.id == t.requester.id
    || is_actor t.claimed_by p.id
    || is_actor t.assigned_worker_id p.id
    || p.id == t.target_node_id

-- `cancelTask`
unfoldable pub cancel_task : String → Option Party → Option String → Action TaskRecord
cancel_task id actor reason = do
  t ← require_task id
  p ← actor_or_throw actor
  throw_if (not (may_cancel t p)) policy_denied
  if is_terminal t.status
      then pure t
      else cancel_task_tree t
          (record { actor_id = p.id; reason = said_option reason; source_task_id = none })

-- `task.approval || task.approvalOutcome?.status === "approved"`
abbrev pub already_approved : TaskRecord → Bool
already_approved t = is_some t.approval || elim t.approval_outcome [
  | none ↦ false
  | some o ↦ elim o.status [ was_approved ↦ true | _ ↦ false ]
]

-- `normalizeApprovalTerminalStatus`
abbrev pub normalize_approval_status : Option ApprovalStatus → ApprovalStatus
normalize_approval_status (some was_expired) = was_expired
normalize_approval_status (some was_canceled) = was_canceled
normalize_approval_status _ = was_rejected

-- `rejectTaskApproval`
unfoldable pub reject_task_approval :
    String
    → Option Party
    → Option ApprovalStatus
    → Option String
    → Option String
    → Action TaskRecord
reject_task_approval id actor requested approval_id reason = do
  t ← require_task id
  p ← actor_or_throw actor
  throw_if (not (is_privileged p.role)) policy_denied
  throw_if (not (requires_approval t)) invalid_transition
  throw_if (already_approved t) invalid_transition
  if is_some t.approval_outcome then pure t else do
    throw_if (is_terminal t.status) invalid_transition
    throw_if (not (is_waiting t.status)) invalid_transition
    at ← now
    let status = normalize_approval_status requested
    let why : Message = or_else (said_option (normalize_string reason)) (approval_of status)
    given ← id_or_fresh (normalize_string approval_id)
    let t' = record t {
      approval_outcome = some (record {
        status = status;
        approval_id = given;
        decided_at = at;
        decided_by = p.id;
        actor_role = p.role;
        requester_role = t.requester.role;
        reason = some why;
      });
    }
    set_task t'
    done ←
        cancel_task_tree t' (record { actor_id = p.id; reason = some why; source_task_id = none })
    append_audit p.id task_approval_rejected done.id done.proposal_id (some (decided status why))
    pure done
