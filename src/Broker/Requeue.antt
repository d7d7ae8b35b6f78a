-- ===== src/Broker/Requeue.antt =====
-- src/core/broker.ts, `requeueStaleTasksDetailed`: tasks whose worker is lost go back to the queue,
-- and to `failed` once they have used up their requeues.
use a2a_broker.Prelude.{
  ℕ, String, Bool, List, [], ◌∷◌, ◌++◌, Option, none, some, not, ◌&&◌, ◌==◌, ◌+◌, or_else, is_some,
  ltb, leb, filter, map, if◌then◌else◌, one_of,
}
use a2a_broker.Prelude.Dict
use a2a_broker.Prelude.Exec.{◌>>◌}
use a2a_broker.Broker.Types.{
  queued, failed, TaskRecord, Worker, RequeueReason, worker_stale, threshold_exceeded, dead_letter,
  requeue, exhausted, task_failed, task_requeued, on_dead_letter, exchange_queued, exchange_failed,
  UpdateReason, requeued, dead_lettered,
}
use a2a_broker.Broker.State.{
  Broker, Action, set_task, append_audit, sync_exchange, write_tombstone, emit_task_update,
}
use a2a_broker.Broker.Guards.{is_active}

-- `isWorkerStale`
abbrev pub is_worker_stale : Worker → ℕ → ℕ → Bool
is_worker_stale w offline_after now = ltb (w.last_seen_at + offline_after) now

-- `listStaleWorkerIds`
unfoldable pub list_stale_worker_ids : Broker → ℕ → ℕ → List String
list_stale_worker_ids b offline_after now =
    map (λ w. w.node_id) (filter (λ w. is_worker_stale w offline_after now) (Dict.values b.workers))

abbrev pub holder_stale : List String → TaskRecord → Option RequeueReason
holder_stale stale t = elim t.claimed_by [
  | none ↦ none
  | some worker ↦
      if not (worker == "") && one_of stale worker then some (worker_stale worker) else none
]

-- `getTaskRequeueReason`. `updatedAt` is always there, so it is the last activity.
unfoldable pub get_task_requeue_reason : TaskRecord → ℕ → List String → ℕ → Option RequeueReason
get_task_requeue_reason t older_than stale now =
    if not (is_active t.status)
    then none
    else if is_some t.completed_at
    then none
    else elim (holder_stale stale t) [
      | some reason ↦ some reason
      | none ↦
          if leb (t.updated_at + older_than) now then some (threshold_exceeded older_than) else none
    ]

-- `this.maxRequeueAttempts > 0 && currentRequeues >= this.maxRequeueAttempts`
abbrev pub is_exhausted : ℕ → ℕ → Bool
is_exhausted max_attempts requeues = ltb 0 max_attempts && leb max_attempts requeues

abbrev pub requeues_of : TaskRecord → ℕ
requeues_of t = or_else t.requeue_count 0

-- The task as the dead letter leaves it.
abbrev pub dead : TaskRecord → ℕ → RequeueReason → ℕ → TaskRecord
dead t max_attempts reason now = record t {
  status = failed;
  updated_at = now;
  completed_at = some now;
  error = some (record {
    code = some "exceeded_requeue_limit";
    message = dead_letter (requeues_of t) reason;
    details = some (exhausted (requeues_of t) max_attempts t.status reason);
  });
}

-- The task as it goes back to the queue.
abbrev pub back : TaskRecord → ℕ → TaskRecord
back t now = record t {
  status = queued;
  claimed_by = none;
  claimed_at = none;
  completed_at = none;
  attempt_id = none;
  updated_at = now;
  requeue_count = some (requeues_of t + 1);
}

unfoldable pub dead_letter_task : TaskRecord → RequeueReason → ℕ → Action (Unit {0})
dead_letter_task t reason now b =
    let t' = dead t b.max_requeue_attempts reason now in
    (do
      set_task t'
      sync_exchange t' exchange_failed
      append_audit "broker" task_failed t'.id t'.proposal_id
          (some (dead_letter (requeues_of t) reason))
      write_tombstone t' on_dead_letter none none)
      b

unfoldable pub requeue_task : TaskRecord → RequeueReason → ℕ → Action (Unit {0})
requeue_task t reason now = do
  let t' = back t now
  set_task t'
  sync_exchange t' exchange_queued
  append_audit "broker" task_requeued t'.id t'.proposal_id
      (some (requeue t.status (requeues_of t') reason))

-- What the sweep has done so far, with the ids in the order of the sweep.
pub record Sweep : Type 0 where
  pub broker : Broker
  pub requeued_ids : List String
  pub dead_ids : List String

-- One task's turn, at the record that the map holds.
unfoldable pub sweep_task : ℕ → List String → ℕ → String → Sweep → Sweep
sweep_task older_than stale now id s = elim (Dict.get s.broker.tasks id) [
  | none ↦ s
  | some t ↦ elim (get_task_requeue_reason t older_than stale now) [
    | none ↦ s
    | some reason ↦
        if is_exhausted s.broker.max_requeue_attempts (requeues_of t)
        then record s {
          broker = (dead_letter_task t reason now s.broker).1;
          dead_ids = s.dead_ids ++ t.id ∷ [];
        }
        else record s {
          broker = (requeue_task t reason now s.broker).1;
          requeued_ids = s.requeued_ids ++ t.id ∷ [];
        }
  ]
]

-- The loop over the map's tasks, in its order. No turn adds a task.
unfoldable pub sweep_tasks : ℕ → List String → ℕ → List String → Sweep → Sweep
sweep_tasks older_than stale now [] s = s
sweep_tasks older_than stale now (id ∷ ids) s =
    sweep_tasks older_than stale now ids (sweep_task older_than stale now id s)

abbrev pub announce : UpdateReason → Option TaskRecord → Broker → Broker
announce reason none b = b
announce reason (some t) b = (emit_task_update t reason b).1

unfoldable pub announce_all : UpdateReason → List String → Broker → Broker
announce_all reason [] b = b
announce_all reason (id ∷ ids) b = announce_all reason ids (announce reason (Dict.get b.tasks id) b)

-- `options?.workerOfflineAfterMs && …`: 0 looks for no stale workers.
abbrev pub stale_ids : Option ℕ → ℕ → Broker → List String
stale_ids none now b = []
stale_ids (some offline_after) now b =
    if leb offline_after 0 then [] else list_stale_worker_ids b offline_after now

-- `requeueStaleTasksDetailed`
unfoldable pub requeue_stale_tasks : ℕ → Option ℕ → ℕ → Broker → Sweep
unfolding sweep_tasks announce_all list_stale_worker_ids
requeue_stale_tasks older_than offline_after now b =
    let s =
      sweep_tasks older_than (stale_ids offline_after now b) now (Dict.keys b.tasks)
        (record { broker = b; requeued_ids = []; dead_ids = [] }) in
    record s {
      broker =
          announce_all requeued s.requeued_ids (announce_all dead_lettered s.dead_ids s.broker);
    }
