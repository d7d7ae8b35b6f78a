-- ===== src/Broker/Descent.antt =====
-- src/core/broker.ts, cancelTaskTree: what one step writes, and the loop over the children.
use a2a_broker.Prelude.{
  ℕ, ◌+◌, ◌≤◌, ◌≡◌, refl, sym, ap, ◌∙◌, subst, String, true, false, List, [], ◌∷◌, some, none,
  one_of, ◌==◌, eq_iff, arith, Bool-cases, Option-cases, inl, inr,
}
use a2a_broker.Prelude.Dict
use a2a_broker.Broker.Types.{
  TaskRecord, canceled, exchange_queued, task_canceled, update_canceled, on_cancel, is_terminal,
}
use a2a_broker.Broker.State.{Broker, now, commit_task}
use a2a_broker.Broker.Cancel.{
  Walk, is_over, cancel_found, cancel_task_record, CancelParams, cancel_child, cancel_children,
}
use a2a_broker.Broker.Frame.{commit_task-Saves, write_tombstone-Buries}
use a2a_broker.Broker.Lifecycle.{IsValid}
use a2a_broker.Broker.Walks.{
  IsCanceled, unvisited, unvisited-shrinks, Turns-over, IsWalk, Achieves, Achieves-refl,
  Achieves-IsWalk, Achieves-trans,
}

-- Cancelling one task writes it as canceled, and no other.
cancel_task_record-writes :
    (t : TaskRecord) (params : CancelParams) (b : Broker)
    → (t' : TaskRecord) × ((cancel_task_record t params b).1.tasks ≡ Dict.set b.tasks t.id t')
      × (t'.status ≡ canceled)
unfolding cancel_task_record now
cancel_task_record-writes t params b =
    let b₁ : Broker = record b { readings = b.readings + 1 } in
    let t' = record t {
      status = canceled;
      claimed_by = none;
      claimed_at = none;
      completed_at = some (b.clock b.readings);
      updated_at = b.clock b.readings;
      result = none;
      error = none;
      cancellation = some (record {
        requested_at = b.clock b.readings;
        requested_by = params.actor_id;
        reason = params.reason;
        source_task_id = params.source_task_id;
      });
    } in
    let (o₁, s) =
      commit_task-Saves t' exchange_queued params.actor_id task_canceled params.reason
        update_canceled b₁ in
    let b₂ : Broker =
      (commit_task t' exchange_queued params.actor_id task_canceled params.reason update_canceled
        b₁).1 in
    let (o₂, g) =
      write_tombstone-Buries t' on_cancel (some params.actor_id) params.reason (b.clock b.readings)
        b₂ refl in
    rw (o₁, o₂) (t', g.tasks ∙ s.written, refl)

pub gone : (b : Broker) (id : String) → Dict.get b.tasks id ≡ none → is_over b id ≡ true
gone b id missing = rw (missing, is_over) refl

ends :
    (b : Broker) (id : String) (t : TaskRecord)
    → Dict.get b.tasks id ≡ some t
    → t.status ≡ canceled
    → is_over b id ≡ true
ends b id t found status = rw (found, is_over) (ap is_terminal status)

same_over :
    (b b' : Broker) (k : String)
    → Dict.get b'.tasks k ≡ Dict.get b.tasks k
    → is_over b' k ≡ is_over b k
same_over b b' k same = rw (same, is_over) refl

pub later :
    (id : String) (ids : List String) (k : String)
    → id == k ≡ false
    → one_of (id ∷ ids) k ≡ true
    → one_of ids k ≡ true
later id ids k other h = sym (rw other refl) ∙ h

-- After that, the task is over, and every other key has what it had.
pub cancel_found-writes :
    (id : String) (params : CancelParams) (b : Broker) (k : String)
    → IsValid b
    → is_over b id ≡ false
    → (is_over (cancel_found (Dict.get b.tasks id) params b) id ≡ true)
      × (id == k ≡ false → is_over (cancel_found (Dict.get b.tasks id) params b) k ≡ is_over b k)
cancel_found-writes id params b k v alive = elim (Option-cases (Dict.get b.tasks id)) [
  | inl missing ↦ absurd (cc (alive, gone b id missing))
  | inr (t, found) ↦
      let named = (v.stored id t found).0 in
      let (t', written, status) = cancel_task_record-writes t params b in
      let b' : Broker = (cancel_task_record t params b).1 in
      let here : Dict.get b'.tasks id ≡ some t' =
        subst (λ m. Dict.get m id ≡ some t') (sym written)
          (Dict.get-set_same b.tasks t.id id t' ((eq_iff t.id id).1 named)) in
      rw found (
        ends b' id t' here status,
        λ other. same_over b b' k (
            subst (λ m. Dict.get m k ≡ Dict.get b.tasks k) (sym written)
              (Dict.get-set_other b.tasks t.id k t'
                (subst (λ i. i == k ≡ false) (sym named) other))),
      )
]

pub cancel_found-IsCanceled :
    (id : String) (params : CancelParams) (b : Broker)
    → IsValid b
    → is_over b id ≡ false
    → IsCanceled (cancel_found (Dict.get b.tasks id) params b) id
cancel_found-IsCanceled id params b v alive = elim (Option-cases (Dict.get b.tasks id)) [
  | inl missing ↦ absurd (cc (alive, gone b id missing))
  | inr (t, found) ↦
      let named = (v.stored id t found).0 in
      let (t', written, status) = cancel_task_record-writes t params b in
      rw found (
        t',
        subst (λ m. Dict.get m id ≡ some t') (sym written)
            (Dict.get-set_same b.tasks t.id id t' ((eq_iff t.id id).1 named)),
        status,
      )
]

-- A way to cancel a task that is not over, under a bound on what is left to visit.
abbrev pub Reaches : List String → ℕ → (String → Walk → Walk) → Type 0
Reaches ks bound cancel =
    (id : String) (w : Walk)
    → IsWalk ks w
    → unvisited ks w.0 ≤ bound
    → is_over w.1 id ≡ false
    → Achieves w (cancel id w) × (one_of (cancel id w).0 id ≡ true)

child-Achieves :
    (ks : List String) (bound : ℕ) (cancel : String → Walk → Walk) (id : String) (w : Walk)
    → Reaches ks bound cancel
    → IsWalk ks w
    → unvisited ks w.0 ≤ bound
    → Achieves w (cancel_child cancel id w) × (is_over (cancel_child cancel id w).1 id ≡ true)
child-Achieves ks bound cancel id w r i few = elim (Bool-cases (is_over w.1 id)) [
  | inl over ↦ rw over (Achieves-refl ks w i, over)
  | inr alive ↦ let (a, seen) = r id w i few alive in rw alive (a, a.done id seen)
]

pub children-Achieves :
    (ks : List String) (bound : ℕ) (cancel : String → Walk → Walk) (ids : List String) (w : Walk)
    → Reaches ks bound cancel
    → IsWalk ks w
    → unvisited ks w.0 ≤ bound
    → Achieves w (cancel_children cancel ids w)
      × ((k : String) → one_of ids k ≡ true → is_over (cancel_children cancel ids w).1 k ≡ true)
unfolding cancel_children
children-Achieves ks bound cancel [] w r i few = (Achieves-refl ks w i, λ k h. absurd (cc h))
children-Achieves ks bound cancel (id ∷ ids) w r i few =
    let w' : Walk = cancel_child cancel id w in
    let (a, over) = child-Achieves ks bound cancel id w r i few in
    let i' = Achieves-IsWalk ks w w' i a in
    let fewer = unvisited-shrinks ks w.0 w'.0 a.grows in
    let (a', rest_over) = children-Achieves ks bound cancel ids w' r i' (ground arith) in
    (
      Achieves-trans ks w w' _ i a a',
      λ k h. elim (Bool-cases (id == k)) [
        | inl same ↦
            Turns-over k a'.turns i'.valid
              (subst (λ j. is_over w'.1 j ≡ true) ((eq_iff id k).0 same) over)
        | inr other ↦ rest_over k (later id ids k other h)
      ],
    )
