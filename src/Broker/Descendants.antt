-- ===== src/Broker/Descendants.antt =====
-- src/core/broker.ts, cancelTask: the tasks below the canceled one, and the fuel of the walk.
use a2a_broker.Prelude.{
  ℕ, suc, ◌≡◌, refl, sym, ap, ◌∙◌, subst, String, true, false, [], Option, some, none, one_of, ◌==◌,
  arith, Option-cases, inl, inr, length,
}
use a2a_broker.Prelude.Dict
use a2a_broker.Prelude.Exec.{ok}
use a2a_broker.Broker.Types.{TaskRecord, Party, is_terminal}
use a2a_broker.Broker.State.{Broker, require_task}
use a2a_broker.Broker.Tasks.{said_option}
use a2a_broker.Broker.Cancel.{
  Walk, is_over, CancelParams, cancel_tree, cancel_task_tree, cancel_task, may_cancel,
}
use a2a_broker.Broker.Lifecycle.{IsValid}
use a2a_broker.Broker.Cancels.{stored_alive}
use a2a_broker.Broker.Recovery.{keys_complete}
use a2a_broker.Broker.Children.{IsChild, IsChild-after}
use a2a_broker.Broker.Walks.{unvisited_bound, IsCanceled, IsWalk, Achieves}
use a2a_broker.Broker.Descent.{gone}
use a2a_broker.Broker.Trees.{cancel_tree-Reaches}

-- The tasks below a task, through tasks that are not over.
pub data Below (b : Broker) (root : String) : String → Type 0 where
  top : Below b root root
  under : {p c : String} → Below b root p → IsChild b p c → is_over b c ≡ false → Below b root c

Below-visited :
    (b : Broker) (root k : String) (w : Walk)
    → IsValid b
    → Achieves ([], b) w
    → one_of w.0 root ≡ true
    → Below b root k
    → one_of w.0 k ≡ true
Below-visited b root k w v a seen top = seen
Below-visited b root k w v a seen (under {p} {c} h child alive) =
    let parent_seen = Below-visited b root p w v a seen h in
    let over = a.closed p c refl parent_seen (IsChild-after p c a.turns v child) in
    (a.counted c alive over).0

Below-alive :
    (b : Broker) (root k : String) → is_over b root ≡ false → Below b root k → is_over b k ≡ false
Below-alive b root k alive top = alive
Below-alive b root k alive (under h child still) = still

listed : (b : Broker) (k : String) → is_over b k ≡ false → one_of (Dict.keys b.tasks) k ≡ true
listed b k alive = elim (Option-cases (Dict.get b.tasks k)) [
  | inl missing ↦ absurd (cc (alive, gone b k missing))
  | inr (t, found) ↦ keys_complete b.tasks k t found
]

cancel_task_tree-reaches :
    (t : TaskRecord) (params : CancelParams) (b : Broker) (k : String)
    → IsValid b
    → is_over b t.id ≡ false
    → Below b t.id k
    → IsCanceled (cancel_task_tree t params b).1 k
unfolding cancel_task_tree
cancel_task_tree-reaches t params b k v alive below =
    let ks = Dict.keys b.tasks in
    let fuel : ℕ = suc (length (Dict.values b.tasks)) in
    let w : Walk = cancel_tree fuel params t.id ([], b) in
    let bound = unvisited_bound b.tasks [] in
    let i : IsWalk ks ([], b) = record {
      valid = v;
      within = λ j still. listed b j still;
      done = λ j seen. absurd (cc seen);
    } in
    let (a, seen) = cancel_tree-Reaches fuel ks params t.id ([], b) i (ground arith) alive in
    let visited = Below-visited b t.id k w v a seen below in
    (a.counted k (Below-alive b t.id k alive below) (a.done k visited)).1

cancel_task_tree-answers :
    (t : TaskRecord) (params : CancelParams) (b : Broker)
    → (u : TaskRecord) × ((cancel_task_tree t params b).0 ≡ ok u)
unfolding cancel_task_tree
cancel_task_tree-answers t params b = (_, refl)

cancel_task_runs :
    (id : String) (p : Party) (reason : Option String) (b : Broker) (t : TaskRecord)
    → Dict.get b.tasks id ≡ some t
    → is_terminal t.status ≡ false
    → p.id == "" ≡ false
    → may_cancel t p ≡ true
    → cancel_task id (some p) reason b
      ≡ cancel_task_tree t
          (record { actor_id = p.id; reason = said_option reason; source_task_id = none })
          b
unfolding cancel_task require_task
cancel_task_runs id p reason b t found alive named allowed = rw (found, named, allowed, alive) refl

-- In a valid broker, when an actor that may cancel it (with an id) cancels a task that is not over,
-- the call succeeds, and the task and every task below it, through tasks that are not over, are
-- canceled.
pub cancel_task-reaches :
    (id : String) (p : Party) (reason : Option String) (b : Broker) (t : TaskRecord)
    → IsValid b
    → Dict.get b.tasks id ≡ some t
    → is_terminal t.status ≡ false
    → p.id == "" ≡ false
    → may_cancel t p ≡ true
    → ((u : TaskRecord) × ((cancel_task id (some p) reason b).0 ≡ ok u))
      × ((k : String) → Below b id k → IsCanceled (cancel_task id (some p) reason b).1 k)
cancel_task-reaches id p reason b t v found alive named allowed =
    let same_id = (v.stored id t found).0 in
    let params : CancelParams = record {
      actor_id = p.id;
      reason = said_option reason;
      source_task_id = none;
    } in
    let run_on = cancel_task_runs id p reason b t found alive named allowed in
    let done = cancel_task_tree-answers t params b in
    (
      (done.0, ap (λ r. r.0) run_on ∙ done.1),
      λ k below.
          subst (λ r. IsCanceled r.1 k) (sym run_on)
            (cancel_task_tree-reaches t params b k v (stored_alive b id t v found alive)
              (subst (λ j. Below b j k) (sym same_id) below)),
    )
