-- ===== src/Broker/State.antt =====
-- src/core/broker.ts, `InMemoryA2ABroker`: its state, and the private methods that every task
-- operation calls. The broker is taken without repositories (all of them are optional). `persistState`
-- is not a part of the operations here: it is a step of its own in Broker/Persistence, which may come
-- before and after each of them, on its hot path or with the retention policy.
--
-- The clock and the random ids are sequences: `now` and `fresh_id` take the next value of theirs.
-- Ids are those of `randomUUID`.
use Prim.Native.String.{◌++◌ as append, String, []}
use a2a_broker.Prelude.{
  ℕ, String, List, [], ◌∷◌, ◌++◌, Option, none, some, ◌+◌, or_else, is_some, ltb, not, ◌&&◌, ◌==◌,
  filter, if◌then◌else◌, Bool, false, true,
}
use a2a_broker.Prelude.Dict
use a2a_broker.Prelude.Dict.{Dict}
use a2a_broker.Prelude.Exec.{Exec, pure, modify, or_raise, ok, ◌>>=◌, ◌>>◌}
use a2a_broker.EventBuffer.{trim}
use a2a_broker.Broker.Types.{
  Worker, Exchange, ExchangeStatus, TaskRecord, Tombstone, TombstoneReason, AuditEvent, AuditAction,
  task_heartbeat, task_tombstoned, Message, tombstone_of, TaskUpdate, UpdateReason, is_terminal,
}

pub data BrokerError : Type 0 where
  bad_request not_found policy_denied invalid_transition : BrokerError
  github_completion_evidence_missing github_completion_receipt_invalid : BrokerError
  unauthorized rate_limited : BrokerError

pub record Broker : Type 0 where
  pub tasks : Dict TaskRecord
  pub workers : Dict Worker
  pub exchanges : Dict Exchange
  pub tombstones : Dict Tombstone
  pub audit_events : Dict AuditEvent
  pub listeners : Dict (List String)
  pub event_seqs : Dict ℕ
  pub event_buffers : Dict (List TaskUpdate)
  pub delivered : List TaskUpdate
  pub heartbeat_audits : Dict ℕ
  pub broker_id : Option String
  pub team_id : Option String
  pub max_requeue_attempts : ℕ
  pub max_buffered_events : ℕ
  pub heartbeat_audit_interval : ℕ
  pub clock : ℕ → ℕ
  pub readings : ℕ
  pub ids : ℕ → String
  pub drawn : ℕ

abbrev pub Action : Type 0 → Type 0
Action = Exec Broker BrokerError

-- `isoNow()`
unfoldable pub now : Action ℕ
now b = (ok (b.clock b.readings), record b { readings = b.readings + 1 })

-- `randomUUID()`
unfoldable pub fresh_id : Action String
fresh_id b = (ok (b.ids b.drawn), record b { drawn = b.drawn + 1 })

unfoldable pub require_task : String → Action TaskRecord
require_task id b = or_raise (Dict.get b.tasks id) not_found b

unfoldable pub require_worker : String → Action Worker
require_worker id b = or_raise (Dict.get b.workers id) not_found b

-- `setTaskRecord`
abbrev pub set_task : TaskRecord → Action (Unit {0})
set_task t b = (ok tt, record b { tasks = Dict.set b.tasks t.id t })

-- `getHeartbeatAuditEventId(input) ?? randomUUID()`: a task has one heartbeat event, which is
-- renewed.
unfoldable pub audit_id : AuditAction → String → Action String
unfolding fresh_id
audit_id task_heartbeat target = pure (append "task-heartbeat:" target)
audit_id other target = fresh_id

-- `appendAuditEvent`. It also hands the event to the task event stream and to the terminal outbox,
-- which are components of their own and give nothing back to the task operations.
unfoldable pub append_audit :
    String → AuditAction → String → Option String → Option Message → Action (Unit {0})
unfolding audit_id now
append_audit actor action target proposal note = do
  id ← audit_id action target
  at ← now
  modify (λ b. record b {
    audit_events = Dict.set b.audit_events id (record {
      id = id;
      actor_id = actor;
      action = action;
      target_id = target;
      proposal_id = proposal;
      note = note;
      created_at = at;
    });
  })

-- The exchange fields that `syncExchangeStateFromTask` copies from the task.
abbrev pub follows : Exchange → TaskRecord → ExchangeStatus → ℕ → Exchange
follows e t status at = record e {
  active_task_id = some t.id;
  target_node_id = t.target_node_id;
  assigned_worker_id = some (or_else t.assigned_worker_id t.target_node_id);
  target = t.target;
  status = status;
  updated_at = at;
}

abbrev pub sync_found : String → Option Exchange → TaskRecord → ExchangeStatus → Action (Unit {0})
sync_found id none t status = pure tt
sync_found id (some e) t status = do
  at ← now
  modify (λ b. record b { exchanges = Dict.set b.exchanges e.id (follows e t status at) })

-- `syncExchangeStateFromTask`: an empty exchange id is no exchange.
unfoldable pub sync_exchange : TaskRecord → ExchangeStatus → Action (Unit {0})
unfolding now
sync_exchange t status b = elim t.exchange_id [
  | none ↦ (ok tt, b)
  | some id ↦ if id == "" then (ok tt, b) else sync_found id (Dict.get b.exchanges id) t status b
]

-- `writeTombstone`. The duration is kept as its two ends: where `completedAt` is missing, the
-- second is the clock's.
unfoldable pub write_tombstone :
    TaskRecord → TombstoneReason → Option String → Option Message → Action (Unit {0})
unfolding now append_audit
write_tombstone t reason actor cancel_reason = do
  at ← now
  completed ← elim t.completed_at [ none ↦ now | some at_end ↦ pure at_end ]
  modify (λ b. record b {
    tombstones = Dict.set b.tombstones t.id (record {
      task_id = t.id;
      terminal_status = t.status;
      tombstone_reason = reason;
      created_at = t.created_at;
      completed_at = completed;
      requeue_count = or_else t.requeue_count 0;
      error = t.error;
      result = t.result;
      tombstoned_at = at;
      actor_id = actor;
      cancel_reason = cancel_reason;
    });
  })
  append_audit (or_else actor "broker") task_tombstoned t.id t.proposal_id
      (some (tombstone_of reason))

-- `listeners && listeners.size > 0`
abbrev pub has_listeners : Option (List String) → Bool
has_listeners none = false
has_listeners (some []) = false
has_listeners (some (listener ∷ more)) = true

-- `emitTaskUpdate`: numbered and buffered once a task has had a subscriber, and delivered to those
-- that it has. What a listener does is not part of the broker.
unfoldable pub emit_task_update : TaskRecord → UpdateReason → Action (Unit {0})
unfolding trim
emit_task_update t reason b =
    let active = has_listeners (Dict.get b.listeners t.id) in
    let buffer = Dict.get b.event_buffers t.id in
    if not active && not (is_some buffer)
    then (ok tt, b)
    else let seq : ℕ = or_else (Dict.get b.event_seqs t.id) 0 + 1 in
      let update : TaskUpdate = record {
        task = t;
        reason = reason;
        final = is_terminal t.status;
        seq = seq;
      } in
      let kept : List TaskUpdate = trim b.max_buffered_events (or_else buffer [] ++ update ∷ []) in
      (
        ok tt,
        record b {
          event_seqs = Dict.set b.event_seqs t.id seq;
          event_buffers = Dict.set b.event_buffers t.id kept;
          delivered = if active then b.delivered ++ update ∷ [] else b.delivered;
        },
      )

-- `replayTaskEvents`
unfoldable pub replay_task_events : Broker → String → ℕ → List TaskUpdate
replay_task_events b id after =
    filter (λ u. ltb after u.seq) (or_else (Dict.get b.event_buffers id) [])

-- The lines with which an operation closes: the task is set again, its exchange follows, the change
-- is audited and announced. `persistState`, which stands before the announcement, is the step of
-- Broker/Persistence; the announcement reads and writes nothing that it prunes.
unfoldable pub commit_task :
    TaskRecord
    → ExchangeStatus
    → String
    → AuditAction
    → Option Message
    → UpdateReason
    → Action (Unit {0})
commit_task t status actor action note reason = do
  set_task t
  sync_exchange t status
  append_audit actor action t.id t.proposal_id note
  emit_task_update t reason
