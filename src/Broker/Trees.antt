-- ===== src/Broker/Trees.antt =====
-- src/core/broker.ts, cancelTaskTree from one task: the task itself, and then its children.
use a2a_broker.Prelude.{
  ℕ, zero, suc, ◌≡◌, refl, sym, subst, String, true, false, List, ◌∷◌, some, one_of, ◌==◌, eq_iff,
  eq_refl, arith, Bool-cases, inl, inr,
}
use a2a_broker.Prelude.Dict
use a2a_broker.Broker.State.{Broker}
use a2a_broker.Broker.Cancel.{
  Walk, is_over, cancel_found, CancelParams, cancel_children, cancel_tree, list_child_tasks,
}
use a2a_broker.Broker.Lifecycle.{Turns-IsValid, Turns-trans}
use a2a_broker.Broker.Cancels.{cancel_found-Turns}
use a2a_broker.Broker.Children.{IsChild, IsChild-before, IsChild-listed, ids_of}
use a2a_broker.Broker.Walks.{
  unvisited-visit, visits, IsCanceled, Turns-IsCanceled, Turns-over, IsWalk, Achieves,
}
use a2a_broker.Broker.Descent.{
  Reaches, cancel_found-writes, cancel_found-IsCanceled, children-Achieves, later,
}

-- The first step of the walk at a task: the task itself.
first-IsWalk :
    (ks visited : List String) (params : CancelParams) (id : String) (b : Broker)
    → IsWalk ks (visited, b)
    → is_over b id ≡ false
    → IsWalk ks (id ∷ visited, cancel_found (Dict.get b.tasks id) params b)
first-IsWalk ks visited params id b i alive =
    let b₁ : Broker = cancel_found (Dict.get b.tasks id) params b in
    let ts = cancel_found-Turns id params b alive in
    record {
      valid = Turns-IsValid ts i.valid;
      within = λ k still. elim (Bool-cases (is_over b k)) [
        | inl over ↦ absurd (cc (still, Turns-over k ts i.valid over))
        | inr before ↦ i.within k before
      ];
      done = λ k seen. elim (Bool-cases (id == k)) [
        | inl same ↦
            subst (λ j. is_over b₁ j ≡ true) ((eq_iff id k).0 same)
              (cancel_found-writes id params b id i.valid alive).0
        | inr other ↦ Turns-over k ts i.valid (i.done k (later id visited k other seen))
      ];
    }

unseen :
    (ks visited : List String) (b : Broker) (id : String)
    → IsWalk ks (visited, b)
    → is_over b id ≡ false
    → one_of visited id ≡ false
unseen ks visited b id i alive = elim (Bool-cases (one_of visited id)) [
  | inl seen ↦ absurd (cc (alive, i.done id seen))
  | inr new ↦ new
]

first_of : (id : String) (visited : List String) → one_of (id ∷ visited) id ≡ true
first_of id visited = rw (eq_refl id) refl

not_later :
    (id k : String) (visited : List String)
    → id == k ≡ false
    → one_of visited k ≡ false
    → one_of (id ∷ visited) k ≡ false
not_later id k visited other new = rw (other, new) refl

-- The step at the task and the walk over its children together.
started :
    (ks visited : List String) (params : CancelParams) (id : String) (b : Broker) (w₂ : Walk)
    → IsWalk ks (visited, b)
    → is_over b id ≡ false
    → Achieves (id ∷ visited, cancel_found (Dict.get b.tasks id) params b) w₂
    → ((k : String)
        → one_of (ids_of (list_child_tasks (cancel_found (Dict.get b.tasks id) params b) id)) k
          ≡ true
        → is_over w₂.1 k ≡ true)
    → Achieves (visited, b) w₂
started ks visited params id b w₂ i alive a over =
    let b₁ : Broker = cancel_found (Dict.get b.tasks id) params b in
    let ts = cancel_found-Turns id params b alive in
    let v₁ = Turns-IsValid ts i.valid in
    record {
      turns = Turns-trans ts a.turns;
      grows = λ k h. a.grows k (visits id k visited h);
      closed = λ p c new old h. elim (Bool-cases (id == p)) [
        | inl same ↦
            let at = sym ((eq_iff id p).0 same) in
            let child = IsChild-before p c a.turns v₁ h in
            over c (IsChild-listed b₁ id c v₁ (subst (λ j. IsChild b₁ j c) at child))
        | inr other ↦ a.closed p c (not_later id p visited other new) old h
      ];
      counted = λ k before after. elim (Bool-cases (is_over b₁ k)) [
        | inr still ↦ a.counted k still after
        | inl early ↦ elim (Bool-cases (id == k)) [
          | inl same ↦
              let at = (eq_iff id k).0 same in
              subst (λ j. (one_of w₂.0 j ≡ true) × IsCanceled w₂.1 j) at
                (
                  a.grows id (first_of id visited),
                  Turns-IsCanceled id a.turns v₁
                      (cancel_found-IsCanceled id params b i.valid alive),
                )
          | inr other ↦
              absurd (cc (before, early, (cancel_found-writes id params b k i.valid alive).1 other))
        ]
      ];
      done = a.done;
    }

-- The walk from a task reaches what it has to, on fuel for the keys that are not visited yet.
pub cancel_tree-Reaches :
    (fuel : ℕ) (ks : List String) (params : CancelParams)
    → Reaches ks fuel (cancel_tree fuel params)
unfolding cancel_tree
cancel_tree-Reaches zero ks params id (visited, b) i few alive =
    let fewer =
      unvisited-visit ks visited id (i.within id alive) (unseen ks visited b id i alive) in
    absurd (ground arith)
cancel_tree-Reaches (suc fuel) ks params id (visited, b) i few alive =
    let new = unseen ks visited b id i alive in
    let fewer = unvisited-visit ks visited id (i.within id alive) new in
    let below = record params { source_task_id = some id } in
    let b₁ : Broker = cancel_found (Dict.get b.tasks id) params b in
    let w₁ : Walk = (id ∷ visited, b₁) in
    let i₁ = first-IsWalk ks visited params id b i alive in
    let children = ids_of (list_child_tasks b₁ id) in
    let (a, over) =
      children-Achieves ks fuel (cancel_tree fuel below) children w₁
        (cancel_tree-Reaches fuel ks below) i₁ (ground arith) in
    rw new (
      started ks visited params id b (cancel_children (cancel_tree fuel below) children w₁) i alive
          a over,
      a.grows id (first_of id visited),
    )
