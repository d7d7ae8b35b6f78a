-- ===== src/Broker/Replays.antt =====
-- What a client that replays a task's updates gets, after any calls.
use a2a_broker.Prelude.{ℕ, String, Bool, List, [], ◌∷◌, filter, ltb, Bool-cases, inl, inr, arith}
use a2a_broker.EventBuffer.Order.{Ascends-le}
use a2a_broker.EventBuffer.Replay.{Ascends}
use a2a_broker.Broker.Types.{TaskUpdate}
use a2a_broker.Broker.State.{Broker, replay_task_events}
use a2a_broker.Broker.Lifecycle.{IsValid, Turns-IsNumbered}
use a2a_broker.Broker.Numbers.{IsNumbered}
use a2a_broker.Broker.Operations.{Operation, run, run-Turns}

abbrev pub seq_of : TaskUpdate → ℕ
seq_of u = u.seq

Ascends-filter :
    (p : TaskUpdate → Bool) (n : ℕ) (us : List TaskUpdate)
    → Ascends seq_of n us
    → Ascends seq_of n (filter p us)
Ascends-filter p n [] a = tt
Ascends-filter p n (u ∷ us) a = elim (Bool-cases (p u)) [
  | inl hit ↦ rw hit (a.0, Ascends-filter p u.seq us a.1)
  | inr miss ↦
      rw miss
        (Ascends-le seq_of n u.seq (filter p us) (omega arith) (Ascends-filter p u.seq us a.1))
]

replay-Ascends :
    (after n : ℕ) (us : List TaskUpdate)
    → Ascends seq_of n us
    → Ascends seq_of after (filter (λ u. ltb after u.seq) us)
replay-Ascends after n [] a = tt
replay-Ascends after n (u ∷ us) a = elim (Bool-cases (ltb after u.seq)) [
  | inl hit ↦ rw hit (ground arith, Ascends-filter (λ v. ltb after v.seq) u.seq us a.1)
  | inr miss ↦ rw miss (replay-Ascends after u.seq us a.1)
]

-- From a valid broker whose buffered updates are in order, after any sequence of calls in
-- `Operation`, a replay of a task's updates after some number gives updates with ascending numbers
-- past it, and none of the task's buffered updates has a number beyond the task's counter.
pub run-replay-Ascends :
    (ops : List Operation) (b : Broker) (k : String) (after : ℕ)
    → IsValid b
    → IsNumbered b
    → Ascends seq_of after (replay_task_events (run ops b) k after) × IsNumbered (run ops b)
unfolding replay_task_events
run-replay-Ascends ops b k after v n =
    let numbered = Turns-IsNumbered (run-Turns ops b v) n in
    (replay-Ascends after 0 _ (numbered k).ascending, numbered)
