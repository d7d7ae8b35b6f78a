-- ===== src/Broker/Cancels.antt =====
-- Cancelling a task and the tasks below it is a sequence of turns along the diagram.
use a2a_broker.Prelude.{
  ℕ, zero, suc, ◌≡◌, refl, String, false, List, [], ◌∷◌, map, length, Option, some, arith, inl, inr,
  Bool-cases, Option-cases, one_of, subst, sym,
}
use a2a_broker.Prelude.Dict
use a2a_broker.Broker.Types.{TaskRecord, Party, is_terminal}
use a2a_broker.Broker.State.{Broker, require_task, now}
use a2a_broker.Broker.Cancel.{
  CancelParams, cancel_task_record, cancel_child, cancel_children, cancel_tree, cancel_task_tree,
  cancel_task, list_child_tasks, Walk, is_over, may_cancel, cancel_found,
}
use a2a_broker.Broker.Frame.{Frame-refl}
use a2a_broker.Broker.Lifecycle.{Turns, rest, Turns-trans, IsValid}
use a2a_broker.Broker.Turns.{bury-Runs, Runs, refused, Runs-Turns, answered}
use a2a_broker.Broker.Decisions.{actor_or_throw-cases}

cancel_task_record-Turns :
    (k : String) (t : TaskRecord) (params : CancelParams) (b : Broker)
    → Dict.get b.tasks k ≡ some t
    → is_terminal t.status ≡ false
    → Turns b (cancel_task_record t params b).1
unfolding cancel_task_record now
cancel_task_record-Turns k t params b found alive = Runs-Turns (
    bury-Runs k t _ (b.clock b.readings) b _ _ _ _ _ _ _ _ _
      (record { tasks = refl; tombstones = refl; workers = refl; limit = refl; numbers = λ n. n })
      found
      (record {
        same_id = refl;
        same_parent = refl;
        same_policy = refl;
        legal = ground arith;
        keeps = λ limit s. ground arith;
      })
      refl)

-- A way to cancel a task that is not over.
abbrev Cancels : (String → Walk → Walk) → Type 0
Cancels cancel = (id : String) (w : Walk) → is_over w.1 id ≡ false → Turns w.1 (cancel id w).1

child-Turns :
    (cancel : String → Walk → Walk) (id : String) (w : Walk)
    → Cancels cancel
    → Turns w.1 (cancel_child cancel id w).1
child-Turns cancel id w c = elim (Bool-cases (is_over w.1 id)) [
  | inl over ↦ rw over (rest (Frame-refl w.1))
  | inr alive ↦ rw alive (c id w alive)
]

cancel_children-Turns :
    (cancel : String → Walk → Walk) (ids : List String) (w : Walk)
    → Cancels cancel
    → Turns w.1 (cancel_children cancel ids w).1
unfolding cancel_children
cancel_children-Turns cancel [] w c = rest (Frame-refl w.1)
cancel_children-Turns cancel (id ∷ ids) w c =
    Turns-trans (child-Turns cancel id w c)
      (cancel_children-Turns cancel ids (cancel_child cancel id w) c)

pub cancel_found-Turns :
    (id : String) (params : CancelParams) (b : Broker)
    → is_over b id ≡ false
    → Turns b (cancel_found (Dict.get b.tasks id) params b)
cancel_found-Turns id params b alive = elim (Option-cases (Dict.get b.tasks id)) [
  | inl missing ↦ rw missing (rest (Frame-refl b))
  | inr (t, found) ↦ rw found (cancel_task_record-Turns id t params b found (ground arith))
]

cancel_tree-Turns : (fuel : ℕ) (params : CancelParams) → Cancels (cancel_tree fuel params)
unfolding cancel_tree
cancel_tree-Turns zero params id w alive = rest (Frame-refl w.1)
cancel_tree-Turns (suc fuel) params id (visited, b) alive = elim (Bool-cases (one_of visited id)) [
  | inl seen ↦ rw seen (rest (Frame-refl b))
  | inr new ↦
      let below = record params { source_task_id = some id } in
      let b' : Broker = cancel_found (Dict.get b.tasks id) params b in
      rw new (
        Turns-trans (cancel_found-Turns id params b alive) (
          cancel_children-Turns (cancel_tree fuel below) (map (λ t. t.id) (list_child_tasks b' id))
            (id ∷ visited, b') (cancel_tree-Turns fuel below)))
]

pub stored_alive :
    (b : Broker) (id : String) (t : TaskRecord)
    → IsValid b
    → Dict.get b.tasks id ≡ some t
    → is_terminal t.status ≡ false
    → is_over b t.id ≡ false
stored_alive b id t v found alive =
    let named = (v.stored id t found).0 in
    let at : Dict.get b.tasks t.id ≡ some t =
      subst (λ i. Dict.get b.tasks i ≡ some t) (sym named) found in
    rw (at, is_over) alive

pub cancel_task_tree-Runs :
    (t : TaskRecord) (params : CancelParams) (b : Broker)
    → is_over b t.id ≡ false
    → Runs b (cancel_task_tree t params b)
unfolding cancel_task_tree
cancel_task_tree-Runs t params b alive =
    answered (cancel_tree-Turns (suc (length (Dict.values b.tasks))) params t.id ([], b) alive)

pub cancel_task-Runs :
    (id : String) (actor : Option Party) (reason : Option String) (b : Broker)
    → IsValid b
    → Runs b (cancel_task id actor reason b)
unfolding cancel_task require_task
cancel_task-Runs id actor reason b v = elim (Option-cases (Dict.get b.tasks id)) [
  | inl missing ↦ rw missing refused
  | inr (t, found) ↦ elim (actor_or_throw-cases actor b) [
    | inr e ↦ rw (found, e) refused
    | inl (p, given, e) ↦ elim (Bool-cases (may_cancel t p)) [
      | inr stranger ↦ rw (found, e, stranger) refused
      | inl allowed ↦ elim (Bool-cases (is_terminal t.status)) [
        | inl over ↦ rw (found, e, allowed, over) (answered (rest (Frame-refl b)))
        | inr alive ↦
            rw (found, e, allowed, alive)
              (cancel_task_tree-Runs t _ b (stored_alive b id t v found alive))
      ]
    ]
  ]
]
