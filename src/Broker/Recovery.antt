-- ===== src/Broker/Recovery.antt =====
-- src/core/broker.ts, the requeue sweep: what it leaves to be requeued.
use a2a_broker.Prelude.{
  ℕ, ◌≡◌, refl, sym, ◌∙◌, subst, String, List, [], ◌∷◌, some, none, true, false, ◌⊎◌, inl, inr,
  ◌==◌, eq_iff, Bool-cases, Option-cases, Option, one_of, arith,
}
use a2a_broker.Prelude.Dict
use a2a_broker.Prelude.Dict.{Dict}
use a2a_broker.Broker.Types.{TaskRecord, dead_lettered, requeued}
use a2a_broker.Broker.State.{Broker}
use a2a_broker.Broker.Guards.{is_active}
use a2a_broker.Broker.Requeue.{
  Sweep, sweep_task, sweep_tasks, announce_all, requeue_stale_tasks, get_task_requeue_reason,
  dead_letter_task, requeue_task, dead, back, is_exhausted, requeues_of, stale_ids,
}
use a2a_broker.Broker.Lifecycle.{Turns, rest, turn, settle, IsValid, Turns-IsValid}
use a2a_broker.Broker.Sweeps.{
  sweep_task-Turns, sweep_tasks-Turns, announce_all-Frame, dead_letter_task-Buries,
  requeue_task-Saves,
}

pub keys_complete {ℓ} :
    {V : Type ℓ} (m : Dict V) (k : String) (v : V)
    → Dict.get m k ≡ some v
    → one_of (Dict.keys m) k ≡ true
unfolding Dict.get
keys_complete [] k v found = absurd (cc found)
keys_complete ((j, w) ∷ m) k v found = ground (arith, keys_complete m k v)

-- The operations add no task.
pub Turns-absent :
    {b b' : Broker} (k : String)
    → Turns b b'
    → IsValid b
    → Dict.get b.tasks k ≡ none
    → Dict.get b'.tasks k ≡ none
Turns-absent k (rest f) v missing = rw f.tasks missing
Turns-absent k (settle ts f) v missing = rw f.tasks (Turns-absent k ts v missing)
Turns-absent k (turn {c} {d} ts s) v missing =
    let before = Turns-absent k ts v missing in
    let (named, sound) = (Turns-IsValid ts v).stored s.key s.old s.found in
    elim (Bool-cases (s.new.id == k)) [
      | inl same ↦
          let at : s.key ≡ k = sym named ∙ sym s.same_id ∙ (eq_iff s.new.id k).0 same in
          absurd (cc (sym (subst (λ i. Dict.get c.tasks i ≡ some s.old) at s.found) ∙ before))
      | inr other ↦
          subst (λ m. Dict.get m k ≡ none) (sym s.written)
            (Dict.get-set_other c.tasks s.new.id k s.new other ∙ before)
    ]

module _ (older_than : ℕ) (stale : List String) (now : ℕ) where
  -- The task under a key, if there is one, has no reason to be requeued.
  abbrev IsCalm : Broker → String → Type 0
  IsCalm b k =
      (t : TaskRecord)
      → Dict.get b.tasks k ≡ some t
      → get_task_requeue_reason t older_than stale now ≡ none

  idle_calm :
      (t : TaskRecord)
      → is_active t.status ≡ false
      → get_task_requeue_reason t older_than stale now ≡ none
  unfolding get_task_requeue_reason
  idle_calm t idle = rw idle refl

  -- A sweep's turn on one task writes it with a status that is not active.
  written-IsCalm :
      (b b' : Broker) (id k : String) (t : TaskRecord)
      → is_active t.status ≡ false
      → t.id ≡ id
      → b'.tasks ≡ Dict.set b.tasks t.id t
      → (id ≡ k) ⊎ IsCalm b k
      → IsCalm b' k
  written-IsCalm b b' id k t idle named written before u found = elim (Bool-cases (t.id == k)) [
    | inl same ↦
        let is_new : t ≡ u = cc (
          sym (Dict.get-set_same b.tasks t.id k t same)
          ∙ subst (λ m. Dict.get m k ≡ some u) written found) in
        idle_calm u (cc (idle, is_new))
    | inr other ↦ elim before [
      | inl here ↦ absurd (cc (other, (eq_iff t.id k).1 (named ∙ here)))
      | inr calm ↦ calm u (
          sym (Dict.get-set_other b.tasks t.id k t other)
          ∙ subst (λ m. Dict.get m k ≡ some u) written found)
    ]
  ]

  here_or_IsCalm : (b : Broker) (id k : String) → IsCalm b id → (id ≡ k) ⊎ IsCalm b k → IsCalm b k
  here_or_IsCalm b id k here (inl same) = subst (λ i. IsCalm b i) same here
  here_or_IsCalm b id k here (inr calm) = calm

  sweep_task-IsCalm :
      (id k : String) (s : Sweep)
      → IsValid s.broker
      → (id ≡ k) ⊎ IsCalm s.broker k
      → IsCalm (sweep_task older_than stale now id s).broker k
  unfolding sweep_task
  sweep_task-IsCalm id k s v before = elim (Option-cases (Dict.get s.broker.tasks id)) [
    | inl missing ↦
        rw (missing, sweep_task)
          (here_or_IsCalm s.broker id k (λ t found. absurd (cc (sym missing ∙ found))) before)
    | inr (t, found) ↦ elim (Option-cases (get_task_requeue_reason t older_than stale now)) [
      | inl calm ↦
          rw (found, calm, sweep_task)
            (here_or_IsCalm s.broker id k
              (λ u at.
                subst (λ o. get_task_requeue_reason o older_than stale now ≡ none)
                  (cc (sym found ∙ at)) calm)
              before)
      | inr (reason, e) ↦
          let named = (v.stored id t found).0 in
          elim (Bool-cases (is_exhausted s.broker.max_requeue_attempts (requeues_of t))) [
            | inl spent ↦
                rw (found, e, spent, sweep_task)
                  (written-IsCalm s.broker (dead_letter_task t reason now s.broker).1 id k
                    (dead t s.broker.max_requeue_attempts reason now) refl named
                    (dead_letter_task-Buries t reason now s.broker).tasks before)
            | inr spare ↦
                rw (found, e, spare, sweep_task)
                  (written-IsCalm s.broker (requeue_task t reason now s.broker).1 id k (back t now)
                    refl named (requeue_task-Saves t reason now s.broker).written before)
          ]
    ]
  ]

  later :
      (id : String) (ids : List String) (k : String)
      → id == k ≡ false
      → one_of (id ∷ ids) k ≡ true
      → one_of ids k ≡ true
  later id ids k other h = (sym (rw other refl)) ∙ h

  sweep_tasks-IsCalm :
      (ids : List String) (k : String) (s : Sweep)
      → IsValid s.broker
      → (one_of ids k ≡ true) ⊎ IsCalm s.broker k
      → IsCalm (sweep_tasks older_than stale now ids s).broker k
  unfolding sweep_tasks
  sweep_tasks-IsCalm [] k s v (inl h) = absurd (cc h)
  sweep_tasks-IsCalm [] k s v (inr calm) = calm
  sweep_tasks-IsCalm (id ∷ ids) k s v before =
      let s' = sweep_task older_than stale now id s in
      let v' = Turns-IsValid (sweep_task-Turns older_than stale now id s) v in
      let calm = sweep_task-IsCalm id k s v in
      sweep_tasks-IsCalm ids k s' v' (elim before [
        | inr h ↦ inr (calm (inr h))
        | inl h ↦ elim (Bool-cases (id == k)) [
          | inl same ↦ inr (calm (inl ((eq_iff id k).0 same)))
          | inr other ↦ inl (later id ids k other h)
        ]
      ])

-- After a requeue sweep of a valid broker, no task is left that the sweep would requeue: none is
-- claimed or running without a completion time whose worker is one of the stale ones, or whose last
-- change is as old as the threshold.
pub requeue_stale_tasks-recovers :
    (older_than : ℕ) (offline_after : Option ℕ) (now : ℕ) (b : Broker) (k : String) (t : TaskRecord)
    → IsValid b
    → Dict.get (requeue_stale_tasks older_than offline_after now b).broker.tasks k ≡ some t
    → get_task_requeue_reason t older_than (stale_ids offline_after now b) now ≡ none
unfolding requeue_stale_tasks
requeue_stale_tasks-recovers older_than offline_after now b k t v found =
    let stale = stale_ids offline_after now b in
    let s₀ : Sweep = record { broker = b; requeued_ids = []; dead_ids = [] } in
    let s = sweep_tasks older_than stale now (Dict.keys b.tasks) s₀ in
    let b₁ = announce_all dead_lettered s.dead_ids s.broker in
    let f₁ = announce_all-Frame dead_lettered s.dead_ids s.broker in
    let f₂ = announce_all-Frame requeued s.requeued_ids b₁ in
    let swept : Dict.get s.broker.tasks k ≡ some t =
      subst (λ m. Dict.get m k ≡ some t) (f₂.tasks ∙ f₁.tasks) found in
    elim (Option-cases (Dict.get b.tasks k)) [
      | inl missing ↦ absurd (
          cc (
            sym (
              Turns-absent k (sweep_tasks-Turns older_than stale now (Dict.keys b.tasks) s₀) v
                missing)
            ∙ swept))
      | inr (u, was) ↦
          sweep_tasks-IsCalm older_than stale now (Dict.keys b.tasks) k s₀ v
            (inl (keys_complete b.tasks k u was)) t swept
    ]
