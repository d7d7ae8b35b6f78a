-- ===== src/Broker/Progress.antt =====
-- A worker's operations on its task: each makes a turn along the diagram, or throws and changes
-- nothing.
use a2a_broker.Prelude.{
  ℕ, ◌≡◌, refl, String, true, false, Option, some, not, ◌&&◌, arith, is_some, inl, inr, Bool-cases,
  Option-cases, Bool,
}
use a2a_broker.Prelude.Dict
use a2a_broker.Prelude.Exec.{pure, ◌>>◌}
use a2a_broker.Broker.Types.{
  claimed, TaskRecord, TaskError, task_heartbeat, is_terminal, said, started,
}
use a2a_broker.Broker.State.{Broker, emit_task_update, require_task, now, fresh_id}
use a2a_broker.Broker.Guards.{requires_approval, is_queued, is_active, is_claimed}
use a2a_broker.Broker.Tasks.{audit_heartbeat, heartbeat_task, claim_task, start_task, fail_task}
use a2a_broker.Broker.Frame.{Frame-refl, Quiet, append_audit-Quiet, emit_task_update-Quiet, Saves}
use a2a_broker.Broker.Lifecycle.{needs_stone, rest, turn, settle}
use a2a_broker.Broker.Turns.{
  assert_task_worker-cases, Legal, save-Runs, bury-Runs, Runs, refused, answered,
}

claims :
    (t : TaskRecord) (worker attempt : String) (at : ℕ)
    → (requires_approval t && not (is_some t.approval)) ≡ false
    → is_queued t.status ≡ true
    → Legal t (record t {
      status = claimed;
      attempt_id = some attempt;
      claimed_by = some worker;
      claimed_at = some at;
      updated_at = at;
    })
claims t worker attempt at gate waiting = record {
  same_id = refl;
  same_parent = refl;
  same_policy = refl;
  legal = ground arith;
  keeps = λ limit s. ground arith;
}

pub claim_task-Runs : (id worker : String) (b : Broker) → Runs b (claim_task id worker b)
unfolding claim_task require_task now fresh_id
claim_task-Runs id worker b = elim (Option-cases (Dict.get b.tasks id)) [
  | inl missing ↦ rw missing refused
  | inr (t, found) ↦ elim (assert_task_worker-cases t worker b) [
    | inr (x, e) ↦ rw (found, e) refused
    | inl (e, holder) ↦ elim (Bool-cases (requires_approval t && not (is_some t.approval))) [
      | inl gated ↦ rw (found, e, gated) refused
      | inr open_gate ↦ elim (Bool-cases (is_queued t.status)) [
        | inr busy ↦ rw (found, e, open_gate, busy) refused
        | inl waiting ↦
            rw (found, e, open_gate, waiting)
              (save-Runs id t _ b _ _ _ _ _ _
                (record {
                  tasks = refl;
                  tombstones = refl;
                  workers = refl;
                  limit = refl;
                  numbers = λ n. n;
                })
                found (claims t worker (b.ids b.drawn) (b.clock b.readings) open_gate waiting) refl)
      ]
    ]
  ]
]

pub start_task-Runs : (id worker : String) (b : Broker) → Runs b (start_task id worker b)
unfolding start_task require_task now
start_task-Runs id worker b = elim (Option-cases (Dict.get b.tasks id)) [
  | inl missing ↦ rw missing refused
  | inr (t, found) ↦ elim (assert_task_worker-cases t worker b) [
    | inr (x, e) ↦ rw (found, e) refused
    | inl (e, holder) ↦ elim (Bool-cases (is_claimed t.status)) [
      | inr other ↦ rw (found, e, other) refused
      | inl ready ↦
          rw (found, e, ready)
            (save-Runs id t _ b _ _ _ _ _ _
              (record {
                tasks = refl;
                tombstones = refl;
                workers = refl;
                limit = refl;
                numbers = λ n. n;
              })
              found
              (record {
                same_id = refl;
                same_parent = refl;
                same_policy = refl;
                legal = ground arith;
                keeps = λ limit s. ground arith;
              })
              refl)
    ]
  ]
]

pub fail_task-Runs :
    (id worker : String) (error : Option TaskError) (b : Broker)
    → Runs b (fail_task id worker error b)
unfolding fail_task require_task now
fail_task-Runs id worker error b = elim (Option-cases (Dict.get b.tasks id)) [
  | inl missing ↦ rw missing refused
  | inr (t, found) ↦ elim (assert_task_worker-cases t worker b) [
    | inr (x, e) ↦ rw (found, e) refused
    | inl (e, holder) ↦ elim (Bool-cases (is_terminal t.status)) [
      | inl over ↦ rw (found, e, over) (answered (rest (Frame-refl b)))
      | inr alive ↦ elim (Bool-cases (is_active t.status)) [
        | inr idle ↦ rw (found, e, alive, idle) refused
        | inl active ↦
            rw (found, e, alive, active)
              (bury-Runs id t _ (b.clock b.readings) b _ _ _ _ _ _ _ _ _
                (record {
                  tasks = refl;
                  tombstones = refl;
                  workers = refl;
                  limit = refl;
                  numbers = λ n. n;
                })
                found
                (record {
                  same_id = refl;
                  same_parent = refl;
                  same_policy = refl;
                  legal = ground arith;
                  keeps = λ limit s. ground arith;
                })
                refl)
      ]
    ]
  ]
]

audit_heartbeat-Quiet :
    (t : TaskRecord) (worker : String) (at : ℕ) (due : Bool) (b : Broker)
    → Quiet (audit_heartbeat t worker at due) b
audit_heartbeat-Quiet t worker at false b = (refl, Frame-refl b)
audit_heartbeat-Quiet t worker at true b =
    let (o, f) =
      append_audit-Quiet worker task_heartbeat t.id t.proposal_id (some (said "task heartbeat"))
        b in
    rw o (
      refl,
      record {
        tasks = f.tasks;
        tombstones = f.tombstones;
        workers = f.workers;
        limit = f.limit;
        numbers = f.numbers;
      },
    )

beat-Runs :
    (k : String) (t t' : TaskRecord) (worker : String) (at : ℕ) (due : Bool) (b s : Broker)
    → Saves t' b s
    → Dict.get b.tasks k ≡ some t
    → Legal t t'
    → needs_stone t'.status ≡ false
    → Runs b ((audit_heartbeat t' worker at due >> (emit_task_update t' started >> pure t')) s)
beat-Runs k t t' worker at due b s saved found l alive =
    let (o₁, f₁) = audit_heartbeat-Quiet t' worker at due s in
    let s₁ : Broker = (audit_heartbeat t' worker at due s).1 in
    let (o₂, f₂) = emit_task_update-Quiet t' started s₁ in
    rw (o₁, o₂)
      (answered (
        settle
          (settle
            (turn (rest (Frame-refl b)) (record {
              key = k;
              old = t;
              new = t';
              found = found;
              same_id = l.same_id;
              same_parent = l.same_parent;
              same_policy = l.same_policy;
              legal = l.legal;
              keeps = l.keeps b.max_requeue_attempts;
              written = saved.written;
              limit = saved.limit;
              numbers = saved.numbers;
              workers = saved.workers;
              stone = inl (alive, saved.tombstones);
            }))
            f₁)
          f₂))

pub heartbeat_task-Runs : (id worker : String) (b : Broker) → Runs b (heartbeat_task id worker b)
unfolding heartbeat_task require_task now
heartbeat_task-Runs id worker b = elim (Option-cases (Dict.get b.tasks id)) [
  | inl missing ↦ rw missing refused
  | inr (t, found) ↦ elim (assert_task_worker-cases t worker b) [
    | inr (x, e) ↦ rw (found, e) refused
    | inl (e, holder) ↦ elim (Bool-cases (is_active t.status)) [
      | inr idle ↦ rw (found, e, idle) refused
      | inl active ↦
          rw (found, e, active)
            (beat-Runs id t _ worker (b.clock b.readings) _ b _
              (record {
                written = refl;
                tombstones = refl;
                workers = refl;
                limit = refl;
                numbers = λ n. n;
              })
              found
              (record {
                same_id = refl;
                same_parent = refl;
                same_policy = refl;
                legal = ground arith;
                keeps = λ limit s. ground arith;
              })
              (ground arith))
    ]
  ]
]
