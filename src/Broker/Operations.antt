-- ===== src/Broker/Operations.antt =====
-- src/core/broker.ts: the task operations together, and what holds after any sequence of them. A
-- call may succeed or fail; the next call meets the state that it left.
use a2a_broker.Prelude.{ℕ, ◌≡◌, String, List, [], ◌∷◌, Option, ap}
use a2a_broker.Prelude.Exec.{Result, ok, err}
use a2a_broker.Broker.Types.{TaskRecord, TaskError, Party, ApprovalStatus}
use a2a_broker.Broker.State.{Broker, BrokerError, Action}
use a2a_broker.Broker.Tasks.{
  claim_task, start_task, fail_task, heartbeat_task, approve_task, reassign_task,
}
use a2a_broker.Broker.Cancel.{cancel_task, reject_task_approval}
use a2a_broker.Broker.Subscriptions.{
  subscribe_to_task, unsubscribe_from_task, subscribe_to_task-Frame, unsubscribe_from_task-Frame,
}
use a2a_broker.Broker.Requeue.{requeue_stale_tasks}
use a2a_broker.Broker.Turns.{Runs-Turns, Runs-error}
use a2a_broker.Broker.Frame.{Frame-refl}
use a2a_broker.Broker.Lifecycle.{Turns, rest, IsValid, Turns-IsValid, Turns-trans}
use a2a_broker.Broker.Progress.{
  claim_task-Runs, start_task-Runs, fail_task-Runs, heartbeat_task-Runs,
}
use a2a_broker.Broker.Decisions.{approve_task-Runs, reassign_task-Runs}
use a2a_broker.Broker.Cancels.{cancel_task-Runs}
use a2a_broker.Broker.Rejections.{reject_task_approval-Runs}
use a2a_broker.Broker.Sweeps.{requeue_stale_tasks-Turns}

pub data Operation : Type 0 where
  claim : String → String → Operation
  start : String → String → Operation
  fail : String → String → Option TaskError → Operation
  heartbeat : String → String → Operation
  approve : String → Option Party → Option String → Option String → Operation
  reject : String → Option Party → Option ApprovalStatus → Option String → Option String → Operation
  reassign : String → Option Party → Option String → Option String → Option String → Operation
  cancel : String → Option Party → Option String → Operation
  subscribe unsubscribe : String → String → Operation
  requeue_stale : ℕ → Option ℕ → ℕ → Operation

pub data Answer : Type 0 where
  task : TaskRecord → Answer
  swept : List String → List String → Answer
  done : Answer

abbrev pub answer : Result BrokerError TaskRecord → Result BrokerError Answer
answer (ok t) = ok (task t)
answer (err e) = err e

abbrev pub told : Action TaskRecord → Action Answer
told m b = (answer (m b).0, (m b).1)

unfoldable pub call : Operation → Action Answer
call (claim id worker) = told (claim_task id worker)
call (start id worker) = told (start_task id worker)
call (fail id worker error) = told (fail_task id worker error)
call (heartbeat id worker) = told (heartbeat_task id worker)
call (approve id actor approval_id reason) = told (approve_task id actor approval_id reason)
call (reject id actor status approval_id reason) =
    told (reject_task_approval id actor status approval_id reason)
call (reassign id actor target worker text) = told (reassign_task id actor target worker text)
call (cancel id actor reason) = told (cancel_task id actor reason)
call (subscribe id listener) = λ b. (ok done, (subscribe_to_task id listener b).1)
call (unsubscribe id listener) = λ b. (ok done, (unsubscribe_from_task id listener b).1)
call (requeue_stale older_than offline_after now) = λ b.
    let s = requeue_stale_tasks older_than offline_after now b in
    (ok (swept s.requeued_ids s.dead_ids), s.broker)

unfoldable pub run : List Operation → Broker → Broker
run [] b = b
run (op ∷ ops) b = run ops (call op b).1

pub call-Turns : (op : Operation) (b : Broker) → IsValid b → Turns b (call op b).1
unfolding call
call-Turns (claim id w) b v = Runs-Turns (claim_task-Runs id w b)
call-Turns (start id w) b v = Runs-Turns (start_task-Runs id w b)
call-Turns (fail id w e) b v = Runs-Turns (fail_task-Runs id w e b)
call-Turns (heartbeat id w) b v = Runs-Turns (heartbeat_task-Runs id w b)
call-Turns (approve id p a r) b v = Runs-Turns (approve_task-Runs id p a r b)
call-Turns (reject id p s a r) b v = Runs-Turns (reject_task_approval-Runs id p s a r b v)
call-Turns (reassign id p n w x) b v = Runs-Turns (reassign_task-Runs id p n w x b)
call-Turns (cancel id p r) b v = Runs-Turns (cancel_task-Runs id p r b v)
call-Turns (subscribe id l) b v = rest (subscribe_to_task-Frame id l b)
call-Turns (unsubscribe id l) b v = rest (unsubscribe_from_task-Frame id l b)
call-Turns (requeue_stale n o t) b v = requeue_stale_tasks-Turns n o t b

told_err : (r : Result BrokerError TaskRecord) {x : BrokerError} → answer r ≡ err x → r ≡ err x
told_err (ok t) e = absurd (cc e)
told_err (err y) e = ap (λ r. elim r [ ok a ↦ err y | err z ↦ err z ]) e

pub run-Turns : (ops : List Operation) (b : Broker) → IsValid b → Turns b (run ops b)
unfolding run
run-Turns [] b v = rest (Frame-refl b)
run-Turns (op ∷ ops) b v =
    let ts = call-Turns op b v in Turns-trans ts (run-Turns ops (call op b).1 (Turns-IsValid ts v))

-- From a valid broker, a call that throws leaves the whole broker as it was, its clock and its ids
-- too.
pub call-throws_unchanged :
    (op : Operation) (b : Broker) (x : BrokerError)
    → IsValid b
    → (call op b).0 ≡ err x
    → (call op b).1 ≡ b
unfolding call
call-throws_unchanged (claim id w) b x v e =
    Runs-error (claim_task-Runs id w b) (told_err (claim_task id w b).0 e)
call-throws_unchanged (start id w) b x v e =
    Runs-error (start_task-Runs id w b) (told_err (start_task id w b).0 e)
call-throws_unchanged (fail id w d) b x v e =
    Runs-error (fail_task-Runs id w d b) (told_err (fail_task id w d b).0 e)
call-throws_unchanged (heartbeat id w) b x v e =
    Runs-error (heartbeat_task-Runs id w b) (told_err (heartbeat_task id w b).0 e)
call-throws_unchanged (approve id p a r) b x v e =
    Runs-error (approve_task-Runs id p a r b) (told_err (approve_task id p a r b).0 e)
call-throws_unchanged (reject id p s a r) b x v e =
    Runs-error (reject_task_approval-Runs id p s a r b v)
      (told_err (reject_task_approval id p s a r b).0 e)
call-throws_unchanged (reassign id p n w d) b x v e =
    Runs-error (reassign_task-Runs id p n w d b) (told_err (reassign_task id p n w d b).0 e)
call-throws_unchanged (cancel id p r) b x v e =
    Runs-error (cancel_task-Runs id p r b v) (told_err (cancel_task id p r b).0 e)
call-throws_unchanged (subscribe id l) b x v e = absurd (cc e)
call-throws_unchanged (unsubscribe id l) b x v e = absurd (cc e)
call-throws_unchanged (requeue_stale n o t) b x v e = absurd (cc e)

-- From a valid broker, any sequence of calls in `Operation` leads to a valid broker: every task is
-- stored under its id; a waiting task has no claim and no completion time; a claimed or running
-- task has a worker and an attempt id, and its approval if it requires one; a task that is over has
-- its completion time; a failed one its error, a canceled one its cancellation, and both a
-- tombstone with their status; and no task has more requeues than the limit, if there is one.
pub run-tasks-IsValid : (ops : List Operation) (b : Broker) → IsValid b → IsValid (run ops b)
run-tasks-IsValid ops b v = Turns-IsValid (run-Turns ops b v) v
