-- ===== src/Broker/Tasks.antt =====
-- src/core/broker.ts: claim, start, fail, heartbeat, approve and reassign. A task is changed in
-- place and set again, so each operation writes the changed record back once.
use a2a_broker.Prelude.{
  ℕ, String, Bool, true, false, Option, none, some, not, ◌&&◌, ◌||◌, ◌==◌, or_else, is_some,
  if◌then◌else◌, leb, ◌+◌,
}
use a2a_broker.Prelude.Dict
use a2a_broker.Prelude.Exec.{pure, throw_if, gets, modify, ◌>>=◌, ◌>>◌}
use a2a_broker.Prelude.Trim.{normalize_string}
use a2a_broker.Broker.Types.{
  blocked, queued, claimed, running, failed, node, TaskRecord, TaskError, Party, Approval,
  was_approved, Message, said, intent_of, reassigned_to, task_claimed, task_started, task_failed,
  task_heartbeat, task_approved, task_reassigned, was_claimed, started, update_failed, approved,
  reassigned, on_failure, exchange_queued, exchange_running, exchange_failed, is_terminal,
}
use a2a_broker.Broker.State.{
  Action, policy_denied, invalid_transition, now, fresh_id, require_task, require_worker, set_task,
  append_audit, write_tombstone, emit_task_update, commit_task,
}
use a2a_broker.Broker.Guards.{
  requires_approval, assert_task_worker, is_queued, is_claimed, is_active, is_waiting,
  is_privileged, actor_or_throw,
}

abbrev pub said_option : Option String → Option Message
said_option none = none
said_option (some text) = some (said text)

-- `error.message || "task failed"`
abbrev pub non_empty : Message → Message
non_empty (said text) = if text == "" then said "task failed" else said text
non_empty message = message

-- `normalizeApprovalId(...) ?? randomUUID()`
abbrev pub id_or_fresh : Option String → Action String
id_or_fresh none = fresh_id
id_or_fresh (some id) = pure id

abbrev pub audit_heartbeat : TaskRecord → String → ℕ → Bool → Action (Unit {0})
audit_heartbeat t worker at false = pure tt
audit_heartbeat t worker at true = do
  append_audit worker task_heartbeat t.id t.proposal_id (some (said "task heartbeat"))
  modify (λ b. record b { heartbeat_audits = Dict.set b.heartbeat_audits t.id at })

-- `claimTask`
unfoldable pub claim_task : String → String → Action TaskRecord
claim_task id worker = do
  t ← require_task id
  assert_task_worker t worker
  throw_if (requires_approval t && not (is_some t.approval)) policy_denied
  throw_if (not (is_queued t.status)) invalid_transition
  at ← now
  attempt ← fresh_id
  let t' = record t {
    status = claimed;
    attempt_id = some attempt;
    claimed_by = some worker;
    claimed_at = some at;
    updated_at = at;
  }
  commit_task t' exchange_running worker task_claimed (some (intent_of t'.intent)) was_claimed
  pure t'

-- `startTask`
unfoldable pub start_task : String → String → Action TaskRecord
start_task id worker = do
  t ← require_task id
  assert_task_worker t worker
  throw_if (not (is_claimed t.status)) invalid_transition
  at ← now
  let t' = record t { status = running; updated_at = at }
  commit_task t' exchange_running worker task_started (some (intent_of t'.intent)) started
  pure t'

-- `normalizeTaskError`: an empty message is replaced.
unfoldable pub normalize_task_error : Option TaskError → TaskError
normalize_task_error none = record { code = none; message = said "task failed"; details = none }
normalize_task_error (some e) = record e { message = non_empty e.message }

-- `failTask`: a task that is over stays as it is.
unfoldable pub fail_task : String → String → Option TaskError → Action TaskRecord
unfolding normalize_task_error
fail_task id worker error = do
  t ← require_task id
  assert_task_worker t worker
  if is_terminal t.status then pure t else do
    throw_if (not (is_active t.status)) invalid_transition
    at ← now
    let e = normalize_task_error error
    let t' = record t {
      status = failed;
      claimed_by = some worker;
      updated_at = at;
      completed_at = some at;
      error = some e;
    }
    commit_task t' exchange_failed worker task_failed (some e.message) update_failed
    write_tombstone t' on_failure none none
    pure t'

-- `heartbeatTask`: the audit event is renewed once in an interval.
unfoldable pub heartbeat_task : String → String → Action TaskRecord
heartbeat_task id worker = do
  t ← require_task id
  assert_task_worker t worker
  throw_if (not (is_active t.status)) invalid_transition
  at ← now
  let t' = record t { last_heartbeat_at = some at; updated_at = at }
  set_task t'
  last ← gets (λ b. or_else (Dict.get b.heartbeat_audits t'.id) 0)
  interval ← gets (λ b. b.heartbeat_audit_interval)
  audit_heartbeat t' worker at (leb interval 0 || leb (last + interval) at)
  emit_task_update t' started
  pure t'

-- `approveTask`: a second approval answers with the task as it stands.
unfoldable pub approve_task :
    String → Option Party → Option String → Option String → Action TaskRecord
approve_task id actor approval_id reason = do
  t ← require_task id
  p ← actor_or_throw actor
  throw_if (not (is_privileged p.role)) policy_denied
  throw_if (not (requires_approval t)) invalid_transition
  if is_some t.approval then pure t else do
    throw_if (is_terminal t.status) invalid_transition
    throw_if (not (is_waiting t.status)) invalid_transition
    at ← now
    given ← id_or_fresh (normalize_string approval_id)
    let approval : Approval = record {
      approval_id = given;
      approved_at = at;
      approved_by = p.id;
      actor_role = p.role;
      requester_role = t.requester.role;
      reason = normalize_string reason;
    }
    let t' = record t {
      approval = some approval;
      approval_outcome = some (record {
        status = was_approved;
        approval_id = given;
        decided_at = at;
        decided_by = p.id;
        actor_role = p.role;
        requester_role = t.requester.role;
        reason = said_option approval.reason;
      });
      status = queued;
      updated_at = at;
    }
    commit_task t' exchange_queued p.id task_approved
        (some (or_else (said_option approval.reason) (Message.approval_id given))) approved
    pure t'

-- `reassignTask`: a fresh attempt budget for the next worker.
unfoldable pub reassign_task :
    String → Option Party → Option String → Option String → Option String → Action TaskRecord
reassign_task id actor target_node worker note = do
  t ← require_task id
  p ← actor_or_throw actor
  throw_if (not (is_privileged p.role)) policy_denied
  throw_if (is_terminal t.status) invalid_transition
  let next_target : String = or_else target_node t.target_node_id
  let next_worker : String =
      or_else worker (or_else target_node (or_else t.assigned_worker_id next_target))
  target_worker ← require_worker next_target
  assigned ← require_worker next_worker
  at ← now
  let t' = record t {
    target_node_id = next_target;
    target = record {
      id = target_worker.node_id;
      kind = some node;
      role = some target_worker.role;
    };
    assigned_worker_id = some assigned.node_id;
    status = if requires_approval t && not (is_some t.approval) then blocked else queued;
    claimed_by = none;
    claimed_at = none;
    completed_at = none;
    result = none;
    error = none;
    requeue_count = some 0;
    attempt_id = none;
    updated_at = at;
  }
  commit_task t' exchange_queued p.id task_reassigned
      (some (
        or_else (said_option note) (
          reassigned_to t.target_node_id next_target (or_else t.assigned_worker_id t.target_node_id)
            assigned.node_id)))
      reassigned
  pure t'
