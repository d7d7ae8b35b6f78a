-- ===== src/TerminalOutbox/Enqueue.antt =====
-- src/core/terminal-event-outbox.ts, `enqueue` and `enqueueCrossBrokerProjection`: the guards and the ids.
use mathlib.Core.List.{[]}
use Prim.Native.String.{◌++◌ as append, String, ◌∷◌, []}
use a2a_broker.Broker.Types.{
  TaskStatus, blocked, queued, claimed, running, succeeded, failed, canceled,
}
use a2a_broker.TerminalOutbox.Types.{
  EventKind, is_terminal_kind, Payload, event_accepted, projection_accepted, OutboxEvent,
}
use a2a_broker.TerminalOutbox.Outbox.{Outbox, enqueue_under, present, is_terminal_status}
use a2a_broker.Prelude.{ℕ, List, Option, ◌∷◌, or_else, some, if◌then◌else◌, not, none, ◌==◌}

-- What `enqueue` reads of a TaskStatusEvent
pub record StatusEvent : Type 0 where
  pub id : ℕ
  pub kind : EventKind
  pub task_id : String
  pub status : TaskStatus
  pub timestamp : String

-- What `enqueue` reads of a TaskRecord
pub record FinishedTask : Type 0 where
  pub id : String
  pub status : TaskStatus
  pub completed_at : Option String
  pub updated_at : String

abbrev pub concat : List String → String
concat [] = ""
concat (s ∷ ss) = append s (concat ss)

-- The text of a status
abbrev pub status_text : TaskStatus → String
status_text blocked = "blocked"
status_text queued = "queued"
status_text claimed = "claimed"
status_text running = "running"
status_text succeeded = "succeeded"
status_text failed = "failed"
status_text canceled = "canceled"

-- `encode` is encodeURIComponent.
unfoldable pub format_terminal_task_event_id :
    (String → String) → String → TaskStatus → String → String
format_terminal_task_event_id encode task status completed_at =
    concat ("terminal:" ∷ encode task ∷ ":" ∷ status_text status ∷ ":" ∷ encode completed_at ∷ [])

unfoldable pub enqueue :
    (String → String) → StatusEvent → FinishedTask → Payload → Outbox → Outbox × Option OutboxEvent
unfolding is_terminal_status format_terminal_task_event_id enqueue_under
enqueue encode event task p o =
    if not (is_terminal_kind event.kind)
    then (o, none)
    else if not (is_terminal_status task.status)
    then (o, none)
    else if not (status_text event.status == status_text task.status)
    then (o, none)
    else if not (event.task_id == task.id)
    then (o, none)
    else let at : String = or_else task.completed_at task.updated_at in
      enqueue_under (format_terminal_task_event_id encode task.id task.status at) event.id p
        event.timestamp event_accepted o

-- What the id of a projection is made of
pub record Projection : Type 0 where
  pub parent_round_id : String
  pub child_task_id : Option String
  pub child_worker_id : Option String
  pub origin_broker_id : String
  pub broker_of_record_id : Option String
  pub status : TaskStatus
  pub received_at : String

abbrev pub canonical_child_task_id : Projection → String
canonical_child_task_id p = or_else p.child_task_id (elim (present p.child_worker_id) [
  | some worker ↦ concat ("worker:" ∷ worker ∷ [])
  | none ↦ concat ("broker:" ∷ p.origin_broker_id ∷ [])
])

unfoldable pub stable_id : (String → String) → Projection → String
stable_id encode p = concat (
    "terminal:"
    ∷ encode (
        concat (
          "cross-broker:"
          ∷ p.parent_round_id
          ∷ ":"
          ∷ canonical_child_task_id p
          ∷ ":"
          ∷ status_text p.status
          ∷ ":"
          ∷ or_else p.broker_of_record_id "unknown-parent-broker"
          ∷ []))
    ∷ [])

unfoldable pub enqueue_cross_broker_projection :
    (String → String) → Projection → Payload → Outbox → Outbox × Option OutboxEvent
unfolding stable_id enqueue_under
enqueue_cross_broker_projection encode projection p o =
    enqueue_under (stable_id encode projection) 0 p projection.received_at projection_accepted o
