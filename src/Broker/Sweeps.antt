-- ===== src/Broker/Sweeps.antt =====
-- The requeue sweep is a sequence of turns along the diagram.
use a2a_broker.Prelude.{
  ℕ, ◌≡◌, refl, String, List, [], ◌∷◌, some, none, Option, inl, inr, Bool-cases, Option-cases,
  arith, ◌∙◌, ap, true, false, sym,
}
use a2a_broker.Prelude.Dict
use a2a_broker.Broker.Types.{
  TaskRecord, RequeueReason, exchange_queued, exchange_failed, task_failed, task_requeued,
  on_dead_letter, UpdateReason, requeued, dead_lettered, dead_letter, requeue,
}
use a2a_broker.Broker.State.{Broker, sync_exchange, append_audit}
use a2a_broker.Broker.Guards.{is_active}
use a2a_broker.Broker.Requeue.{
  Sweep, sweep_task, sweep_tasks, announce_all, requeue_stale_tasks, get_task_requeue_reason,
  dead_letter_task, requeue_task, dead, back, is_exhausted, requeues_of, announce, stale_ids,
}
use a2a_broker.Broker.Frame.{
  Saves, Buries, Frame, Frame-refl, append_audit-Quiet, sync_exchange-Quiet, write_tombstone-Buries,
  emit_task_update-Quiet, Frame-trans,
}
use a2a_broker.Broker.Lifecycle.{Turns, rest, turn, settle, Turns-trans}

-- Only a claimed or running task has a reason to be requeued.
pub get_task_requeue_reason-active :
    (t : TaskRecord) (older_than : ℕ) (stale : List String) (now : ℕ) (reason : RequeueReason)
    → get_task_requeue_reason t older_than stale now ≡ some reason
    → is_active t.status ≡ true
unfolding get_task_requeue_reason
get_task_requeue_reason-active t older_than stale now reason h =
    elim (Bool-cases (is_active t.status)) [
      | inl active ↦ active
      | inr idle ↦
          let e : get_task_requeue_reason t older_than stale now ≡ none = rw idle refl in
          absurd (cc (sym e ∙ h))
    ]

pub dead_letter_task-Buries :
    (t : TaskRecord) (reason : RequeueReason) (now : ℕ) (b : Broker)
    → Buries
        (dead t b.max_requeue_attempts reason now)
        (record b { tasks = Dict.set b.tasks t.id (dead t b.max_requeue_attempts reason now) })
        (dead_letter_task t reason now b).1
unfolding dead_letter_task
dead_letter_task-Buries t reason now b =
    let t' = dead t b.max_requeue_attempts reason now in
    let text = some (dead_letter (requeues_of t) reason) in
    let b₁ : Broker = record b { tasks = Dict.set b.tasks t'.id t' } in
    let (o₁, f₁) = sync_exchange-Quiet t' exchange_failed b₁ in
    let b₂ : Broker = (sync_exchange t' exchange_failed b₁).1 in
    let (o₂, f₂) = append_audit-Quiet "broker" task_failed t'.id t'.proposal_id text b₂ in
    let b₃ : Broker = (append_audit "broker" task_failed t'.id t'.proposal_id text b₂).1 in
    let (o₃, g) = write_tombstone-Buries t' on_dead_letter none none now b₃ refl in
    rw (o₁, o₂)
      (record {
        stone = g.stone;
        written = g.written ∙ ap (λ m. Dict.set m t'.id g.stone) (f₂.tombstones ∙ f₁.tombstones);
        says = g.says;
        tasks = g.tasks ∙ f₂.tasks ∙ f₁.tasks;
        workers = g.workers ∙ f₂.workers ∙ f₁.workers;
        limit = g.limit ∙ f₂.limit ∙ f₁.limit;
        numbers = λ n. g.numbers (f₂.numbers (f₁.numbers n));
      })

pub requeue_task-Saves :
    (t : TaskRecord) (reason : RequeueReason) (now : ℕ) (b : Broker)
    → Saves (back t now) b (requeue_task t reason now b).1
unfolding requeue_task
requeue_task-Saves t reason now b =
    let t' = back t now in
    let b₁ : Broker = record b { tasks = Dict.set b.tasks t'.id t' } in
    let (o₁, f₁) = sync_exchange-Quiet t' exchange_queued b₁ in
    let b₂ : Broker = (sync_exchange t' exchange_queued b₁).1 in
    let (o₂, f₂) =
      append_audit-Quiet "broker" task_requeued t'.id t'.proposal_id
        (some (requeue t.status (requeues_of t') reason)) b₂ in
    rw o₁ (record {
      written = f₂.tasks ∙ f₁.tasks;
      tombstones = f₂.tombstones ∙ f₁.tombstones;
      workers = f₂.workers ∙ f₁.workers;
      limit = f₂.limit ∙ f₁.limit;
      numbers = λ n. f₂.numbers (f₁.numbers n);
    })

dead_letter_task-Turns :
    (k : String) (t : TaskRecord) (reason : RequeueReason) (now : ℕ) (b : Broker)
    → Dict.get b.tasks k ≡ some t
    → is_active t.status ≡ true
    → Turns b (dead_letter_task t reason now b).1
dead_letter_task-Turns k t reason now b found active =
    let g = dead_letter_task-Buries t reason now b in
    turn (rest (Frame-refl b)) (record {
      key = k;
      old = t;
      new = dead t b.max_requeue_attempts reason now;
      found = found;
      same_id = refl;
      same_parent = refl;
      same_policy = refl;
      legal = ground arith;
      keeps = ground arith;
      written = g.tasks;
      limit = g.limit;
      numbers = g.numbers;
      workers = g.workers;
      stone = inr (g.stone, g.written, g.says);
    })

requeue_task-Turns :
    (k : String) (t : TaskRecord) (reason : RequeueReason) (now : ℕ) (b : Broker)
    → Dict.get b.tasks k ≡ some t
    → is_active t.status ≡ true
    → is_exhausted b.max_requeue_attempts (requeues_of t) ≡ false
    → Turns b (requeue_task t reason now b).1
requeue_task-Turns k t reason now b found active spare =
    let g = requeue_task-Saves t reason now b in
    turn (rest (Frame-refl b)) (record {
      key = k;
      old = t;
      new = back t now;
      found = found;
      same_id = refl;
      same_parent = refl;
      same_policy = refl;
      legal = ground arith;
      keeps = ground arith;
      written = g.written;
      limit = g.limit;
      numbers = g.numbers;
      workers = g.workers;
      stone = inl (refl, g.tombstones);
    })

pub sweep_task-Turns :
    (older_than : ℕ) (stale : List String) (now : ℕ) (id : String) (s : Sweep)
    → Turns s.broker (sweep_task older_than stale now id s).broker
unfolding sweep_task
sweep_task-Turns older_than stale now id s = elim (Option-cases (Dict.get s.broker.tasks id)) [
  | inl missing ↦ rw (missing, sweep_task) (rest (Frame-refl s.broker))
  | inr (t, found) ↦ elim (Option-cases (get_task_requeue_reason t older_than stale now)) [
    | inl none_found ↦ rw (found, none_found, sweep_task) (rest (Frame-refl s.broker))
    | inr (reason, e) ↦
        let active = get_task_requeue_reason-active t older_than stale now reason e in
        elim (Bool-cases (is_exhausted s.broker.max_requeue_attempts (requeues_of t))) [
          | inl spent ↦
              rw (found, e, spent, sweep_task)
                (dead_letter_task-Turns id t reason now s.broker found active)
          | inr spare ↦
              rw (found, e, spare, sweep_task)
                (requeue_task-Turns id t reason now s.broker found active spare)
        ]
  ]
]

pub sweep_tasks-Turns :
    (older_than : ℕ) (stale : List String) (now : ℕ) (ids : List String) (s : Sweep)
    → Turns s.broker (sweep_tasks older_than stale now ids s).broker
unfolding sweep_tasks
sweep_tasks-Turns older_than stale now [] s = rest (Frame-refl s.broker)
sweep_tasks-Turns older_than stale now (id ∷ ids) s =
    Turns-trans (sweep_task-Turns older_than stale now id s)
      (sweep_tasks-Turns older_than stale now ids (sweep_task older_than stale now id s))

announce-Frame :
    (reason : UpdateReason) (t : Option TaskRecord) (b : Broker) → Frame b (announce reason t b)
announce-Frame reason none b = Frame-refl b
announce-Frame reason (some t) b = (emit_task_update-Quiet t reason b).1

pub announce_all-Frame :
    (reason : UpdateReason) (ids : List String) (b : Broker) → Frame b (announce_all reason ids b)
unfolding announce_all
announce_all-Frame reason [] b = Frame-refl b
announce_all-Frame reason (id ∷ ids) b =
    Frame-trans b (announce reason (Dict.get b.tasks id) b) _
      (announce-Frame reason (Dict.get b.tasks id) b)
      (announce_all-Frame reason ids (announce reason (Dict.get b.tasks id) b))

pub requeue_stale_tasks-Turns :
    (older_than : ℕ) (offline_after : Option ℕ) (now : ℕ) (b : Broker)
    → Turns b (requeue_stale_tasks older_than offline_after now b).broker
unfolding requeue_stale_tasks
requeue_stale_tasks-Turns older_than offline_after now b =
    let s =
      sweep_tasks older_than (stale_ids offline_after now b) now (Dict.keys b.tasks)
        (record { broker = b; requeued_ids = []; dead_ids = [] }) in
    settle
      (settle
        (sweep_tasks-Turns older_than (stale_ids offline_after now b) now (Dict.keys b.tasks) _)
        (announce_all-Frame dead_lettered s.dead_ids s.broker))
      (announce_all-Frame requeued s.requeued_ids (announce_all dead_lettered s.dead_ids s.broker))
