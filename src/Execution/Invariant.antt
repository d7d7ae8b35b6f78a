-- ===== src/Execution/Invariant.antt =====
-- What holds of every run and of the event buffer after any calls.
use a2a_broker.Prelude.{
  ℕ, ◌≡◌, ◌∙◌, sym, subst, String, List, [], ◌∷◌, Option, or_else, if◌then◌else◌, leb,
}
use a2a_broker.Prelude.Dict
use a2a_broker.EventBuffer.Announce
use a2a_broker.EventBuffer.Order.{IsOrdered, new-IsOrdered}
use a2a_broker.Execution.Types.{RunState}
use a2a_broker.Execution.Manager.{Manager, new}
use a2a_broker.Execution.Moves.{
  Operation, Call, step, run, Move, stay, enter, advance, Names, IsConsistent,
}
use a2a_broker.Execution.Steps.{step-Move}

abbrev pub IsStored : String → RunState → Type 0
IsStored k r = (r.run_id ≡ k) × IsConsistent r

pub record IsValid (m : Manager) : Type 0 where
  pub unique : Dict.IsUnique m.runs
  pub at_key : Dict.Holds IsStored m.runs
  pub ordered : IsOrdered (λ e. e.id) m.buffer
  pub announced : Announce.IsAnnounced (λ e. e.id) (λ e. e.run_id) Names m.runs m.buffer

written-IsValid :
    (m m' : Manager) (k : String) (r : RunState)
    → IsStored k r
    → m'.runs ≡ Dict.set m.runs k r
    → Announce.Emits (λ e. e.id) (λ e. e.run_id) Names k r m.buffer m'.buffer
    → IsValid m
    → IsValid m'
written-IsValid m m' k r stored written emits v = record {
  unique = rw written (Dict.set-IsUnique m.runs k r v.unique);
  at_key = rw written (Dict.Holds-set IsStored m.runs k r v.at_key stored);
  ordered =
      Announce.Emits-IsOrdered (λ e. e.id) (λ e. e.run_id) Names k r m.buffer m'.buffer emits
        v.ordered;
  announced = rw written (
      Announce.Emits-IsAnnounced (λ e. e.id) (λ e. e.run_id) Names k r m.runs m.buffer m'.buffer
        emits v.announced);
}

Move-IsValid : (o : Operation) (m m' : Manager) → Move o m m' → IsValid m → IsValid m'
Move-IsValid o m m' (stay e) v = subst IsValid (sym e) v
Move-IsValid o m m' (enter id r draws status same_id c written emits) v =
    written-IsValid m m' id r (same_id, c) written emits v
Move-IsValid o m m' (advance k r r' found u written emits) v =
    let (named, c) = v.at_key k r found in
    written-IsValid m m' k r' (u.same_id ∙ named, u.keeps c) written emits v

pub new-IsValid : (max_events : Option ℕ) → IsValid (new max_events)
unfolding new Dict.get
new-IsValid max_events = record {
  unique = tt;
  at_key = λ k r e. cc;
  ordered =
      new-IsOrdered (λ e. e.id)
        (if leb (or_else max_events 0) 0 then 500 else or_else max_events 0);
  announced = λ k e h. absurd (cc (h));
}

pub step-IsValid :
    (m : Manager) (c : Call) → IsValid m → IsValid (step m c.operation c.now c.emitted)
step-IsValid m c v = Move-IsValid c.operation m _ (step-Move m c.operation c.now c.emitted) v

pub run-keeps-IsValid : (m : Manager) (calls : List Call) → IsValid m → IsValid (run m calls)
unfolding run
run-keeps-IsValid m [] v = v
run-keeps-IsValid m (c ∷ calls) v =
    run-keeps-IsValid (step m c.operation c.now c.emitted) calls (step-IsValid m c v)

-- After any calls on a new manager, whatever their outcomes: every run is stored under its own id, once;
-- a run that waits for its session has had no payload, and one that got its payload, runs or has
-- reported has had it, at a known time; one that runs or has reported has its start time; a run has a
-- result exactly when it has reported, and then its end time; a failed, timed-out or cancelled one has a
-- code and an end time; attempts are at least 1; event ids ascend and stay at most `latestId`; and the newest retained
-- event of a run names the status that it has now.
pub run-executions-IsValid :
    (max_events : Option ℕ) (calls : List Call) → IsValid (run (new max_events) calls)
run-executions-IsValid max_events calls =
    run-keeps-IsValid (new max_events) calls (new-IsValid max_events)
