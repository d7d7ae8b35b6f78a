-- ===== src/Delivery/Invariant.antt =====
-- The invariant of the manager holds after any calls.
use a2a_broker.Prelude.{
  ℕ, ◌≡◌, subst, List, [], ◌∷◌, Option, none, or_else, if◌then◌else◌, leb, sym,
}
use a2a_broker.Prelude.Dict
use a2a_broker.EventBuffer.Announce
use a2a_broker.EventBuffer.Order.{new-IsOrdered}
use a2a_broker.Delivery.Manager.{Manager, new}
use a2a_broker.Delivery.Moves.{
  Operation, registers, Call, step, run, Move, stay, suppress, enter, advance, Names, IsFresh,
  AreFresh,
}
use a2a_broker.Delivery.Steps.{step-Move, AreNamed}
use a2a_broker.Delivery.Validity.{
  IsValid, IsStored, existing-unknown, suppress-IsValid, advance-IsValid, enter-indexed,
  enter-points,
}

Move-IsValid : (o : Operation) (m m' : Manager) → Move o m m' → IsFresh m o → IsValid m → IsValid m'
Move-IsValid o m m' (stay e) fresh v = subst IsValid (sym e) v
Move-IsValid o m m' (suppress input id k d asked known found e) fresh v =
    rw e (suppress-IsValid m k d found v)
Move-IsValid o m m' (advance k d d' found u written same emits) fresh v =
    advance-IsValid m m' k d d' found u written same emits v
Move-IsValid o m m' (enter input id d asked first status same_id same_run c written indexed emits)
      fresh v =
    let given : IsFresh m (registers input id) = subst (IsFresh m) asked fresh in
    let unknown : Dict.get m.run_index input.run_id ≡ none =
      existing-unknown m input.run_id v first in
    record {
      unique = rw written (Dict.set-IsUnique m.deliveries id d v.unique);
      at_key = rw written (Dict.Holds-set IsStored m.deliveries id d v.at_key (same_id, c));
      indexed =
          enter-indexed m m' input.run_id id d unknown given.1 given.0 same_run written indexed v;
      points =
          enter-points m m' input.run_id id d unknown given.1 given.0 same_run written indexed v;
      ordered =
          Announce.Emits-IsOrdered (λ e. e.id) (λ e. e.delivery_id) Names id d m.buffer m'.buffer
            emits v.ordered;
      announced = rw written (
          Announce.Emits-IsAnnounced (λ e. e.id) (λ e. e.delivery_id) Names id d m.deliveries
            m.buffer m'.buffer emits v.announced);
    }

pub new-IsValid :
    (max_events default_max_retries : Option ℕ) → IsValid (new max_events default_max_retries)
unfolding new Dict.get
new-IsValid max_events default_max_retries = record {
  unique = tt;
  at_key = λ k d e. cc;
  indexed = λ k d e. cc;
  points = λ k d e. absurd (cc (e));
  ordered =
      new-IsOrdered (λ e. e.id)
        (if leb (or_else max_events 0) 0 then 500 else or_else max_events 0);
  announced = λ k e h. absurd (cc (h));
}

pub IsValid-AreNamed : (m : Manager) → IsValid m → AreNamed m
IsValid-AreNamed m v k d found = (v.at_key k d found).0

pub step-IsValid :
    (m : Manager) (c : Call)
    → IsFresh m c.operation
    → IsValid m
    → IsValid (step m c.operation c.now c.emitted)
step-IsValid m c fresh v =
    Move-IsValid c.operation m _ (step-Move m c.operation c.now c.emitted (IsValid-AreNamed m v))
      fresh v

pub run-keeps-IsValid :
    (m : Manager) (calls : List Call) → AreFresh m calls → IsValid m → IsValid (run m calls)
unfolding run
run-keeps-IsValid m [] fresh v = v
run-keeps-IsValid m (c ∷ calls) fresh v =
    run-keeps-IsValid (step m c.operation c.now c.emitted) calls fresh.1
      (step-IsValid m c fresh.0 v)

-- After any calls on a new manager whose factory gives ids that are not empty and not in use, whatever
-- the outcomes: every delivery is stored under its own id, once, and the index by run leads to it, and only to
-- deliveries of that run; a delivery that is sent, arrived or acknowledged has the times of each stage,
-- a failed or timed-out one has a failure code, and it is acknowledged exactly when its status is
-- acked; its attempts are at least 1, and at most max(1, maxRetries), or one more where it timed out;
-- event ids ascend; and the newest retained event of a delivery names its run and its status.
pub run-deliveries-IsValid :
    (max_events default_max_retries : Option ℕ) (calls : List Call)
    → AreFresh (new max_events default_max_retries) calls
    → IsValid (run (new max_events default_max_retries) calls)
run-deliveries-IsValid max_events default_max_retries calls fresh =
    run-keeps-IsValid (new max_events default_max_retries) calls fresh
      (new-IsValid max_events default_max_retries)
