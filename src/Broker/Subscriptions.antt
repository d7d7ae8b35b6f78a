-- ===== src/Broker/Subscriptions.antt =====
-- src/core/broker.ts, `subscribeToTask` and the function that it returns. A listener is known by a name; what it
-- does with an update is not part of the broker.
use a2a_broker.Prelude.{
  String, List, [], ◌∷◌, ◌++◌, not, filter, one_of, or_else, Option, none, some, ◌==◌,
  if◌then◌else◌, refl,
}
use a2a_broker.Prelude.Dict
use a2a_broker.Prelude.Exec.{ok}
use a2a_broker.Broker.State.{Broker, Action}
use a2a_broker.Broker.Frame.{Frame, Frame-refl}

-- `listeners.add(listener)`
abbrev pub with_listener : List String → String → List String
with_listener listeners name = if one_of listeners name then listeners else listeners ++ name ∷ []

unfoldable pub subscribe_to_task : String → String → Action (Unit {0})
subscribe_to_task id name b = (
  ok tt,
  record b {
    listeners = Dict.set b.listeners id (with_listener (or_else (Dict.get b.listeners id) []) name);
  },
)

-- `current.delete(listener)`, and the task's entry goes with its last listener.
abbrev pub without_listener : String → List String → Broker → Broker
without_listener id [] b = record b { listeners = Dict.remove b.listeners id }
without_listener id (name ∷ names) b = record b {
  listeners = Dict.set b.listeners id (name ∷ names);
}

abbrev pub leave : String → String → Option (List String) → Broker → Broker
leave id name none b = b
leave id name (some current) b = without_listener id (filter (λ l. not (l == name)) current) b

unfoldable pub unsubscribe_from_task : String → String → Action (Unit {0})
unsubscribe_from_task id name b = (ok tt, leave id name (Dict.get b.listeners id) b)

pub subscribe_to_task-Frame :
    (id name : String) (b : Broker) → Frame b (subscribe_to_task id name b).1
unfolding subscribe_to_task
subscribe_to_task-Frame id name b = record {
  tasks = refl;
  tombstones = refl;
  workers = refl;
  limit = refl;
  numbers = λ n. n;
}

without_listener-Frame :
    (id : String) (names : List String) (b : Broker) → Frame b (without_listener id names b)
without_listener-Frame id [] b = record {
  tasks = refl;
  tombstones = refl;
  workers = refl;
  limit = refl;
  numbers = λ n. n;
}
without_listener-Frame id (name ∷ names) b = record {
  tasks = refl;
  tombstones = refl;
  workers = refl;
  limit = refl;
  numbers = λ n. n;
}

leave-Frame :
    (id name : String) (o : Option (List String)) (b : Broker) → Frame b (leave id name o b)
leave-Frame id name none b = Frame-refl b
leave-Frame id name (some current) b =
    without_listener-Frame id (filter (λ l. not (l == name)) current) b

pub unsubscribe_from_task-Frame :
    (id name : String) (b : Broker) → Frame b (unsubscribe_from_task id name b).1
unfolding unsubscribe_from_task
unsubscribe_from_task-Frame id name b = leave-Frame id name (Dict.get b.listeners id) b
