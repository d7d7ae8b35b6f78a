-- ===== src/Broker/Claims.antt =====
-- src/core/broker.ts, claiming: who gets a task, and what others can do with it then.
use a2a_broker.Prelude.{
  ◌≡◌, refl, sym, ◌∙◌, subst, ap, String, true, false, Option, some, not, ◌&&◌, is_some, ◌⊎◌, inl,
  inr, eq_refl, Bool-cases, Option-cases, ◌==◌, arith,
}
use a2a_broker.Prelude.Dict
use a2a_broker.Prelude.Exec.{Result, ok, err, pure, ◌>>◌}
use a2a_broker.Broker.Types.{
  claimed, TaskRecord, ExchangeStatus, AuditAction, Message, UpdateReason, TaskStatus, TaskError,
}
use a2a_broker.Broker.State.{
  Broker, BrokerError, require_task, now, fresh_id, commit_task, not_found, policy_denied,
  invalid_transition,
}
use a2a_broker.Broker.Guards.{requires_approval, is_queued, claimed_by_other, assert_task_worker}
use a2a_broker.Broker.Tasks.{claim_task, start_task, heartbeat_task, fail_task}
use a2a_broker.Broker.Frame.{commit_task-Saves}
use a2a_broker.Broker.Lifecycle.{IsValid}
use a2a_broker.Broker.Turns.{IsHolder, assert_task_worker-cases}

-- What a claim by a worker found, and what it leaves under the task's id.
pub record Granted (id worker : String) (b : Broker) (r : Result BrokerError TaskRecord × Broker)
    : Type 0 where
  pub before : TaskRecord
  pub after : TaskRecord
  pub found : Dict.get b.tasks id ≡ some before
  pub holder : IsHolder before worker
  pub approved : (requires_approval before && not (is_some before.approval)) ≡ false
  pub waiting : is_queued before.status ≡ true
  pub answers : r.0 ≡ ok after
  pub stored : Dict.get r.1.tasks before.id ≡ some after
  pub status : after.status ≡ claimed
  pub held_by : after.claimed_by ≡ some worker

saved_at :
    (t : TaskRecord) (status : ExchangeStatus) (actor : String) (action : AuditAction)
    (text : Option Message) (reason : UpdateReason) (b : Broker)
    → (((commit_task t status actor action text reason >> pure t) b).0 ≡ ok t)
      × (Dict.get ((commit_task t status actor action text reason >> pure t) b).1.tasks t.id
          ≡ some t)
saved_at t status actor action text reason b =
    let (o, s) = commit_task-Saves t status actor action text reason b in
    rw o (
      refl,
      subst (λ m. Dict.get m t.id ≡ some t) (sym s.written)
          (Dict.get-set_same b.tasks t.id t.id t (eq_refl t.id)),
    )

claim_task-cases :
    (id worker : String) (b : Broker)
    → ((x : BrokerError) × (claim_task id worker b ≡ (err x, b)))
      ⊎ Granted id worker b (claim_task id worker b)
unfolding claim_task require_task now fresh_id
claim_task-cases id worker b = elim (Option-cases (Dict.get b.tasks id)) [
  | inl missing ↦ inl (not_found, rw missing)
  | inr (t, found) ↦ elim (assert_task_worker-cases t worker b) [
    | inr (x, e) ↦ inl (x, rw (found, e))
    | inl (e, holder) ↦ elim (Bool-cases (requires_approval t && not (is_some t.approval))) [
      | inl gated ↦ inl (policy_denied, rw (found, e, gated))
      | inr open_gate ↦ elim (Bool-cases (is_queued t.status)) [
        | inr busy ↦ inl (invalid_transition, rw (found, e, open_gate, busy))
        | inl waiting ↦
            let (o, at) = saved_at _ _ _ _ _ _ _ in
            inr (
              rw (found, e, open_gate, waiting)
                (record {
                  before = t;
                  after = _;
                  found = found;
                  holder = holder;
                  approved = open_gate;
                  waiting = waiting;
                  answers = o;
                  stored = at;
                  status = refl;
                  held_by = refl;
                }))
      ]
    ]
  ]
]

-- A claim that succeeds was made by the task's assigned worker (its target, where none is
-- assigned), on a queued task that no other worker holds and that has its approval if it requires
-- one; it answers with the task as it is then stored, claimed by that worker.
pub claim_task-Granted :
    (id worker : String) (b : Broker) (t : TaskRecord)
    → (claim_task id worker b).0 ≡ ok t
    → Granted id worker b (claim_task id worker b)
claim_task-Granted id worker b t e = elim (claim_task-cases id worker b) [
  | inl (x, thrown) ↦ absurd (cc (ap (λ r. r.0) (sym thrown) ∙ e))
  | inr granted ↦ granted
]

not_queued : (s : TaskStatus) → s ≡ claimed → is_queued s ≡ true → ⊥
not_queued s e waiting = cc (ap is_queued e, waiting)

-- A call that throws, and leaves the broker as it is.
abbrev pub Refuses : Result BrokerError TaskRecord × Broker → Broker → Type 0
Refuses r b = (x : BrokerError) × (r ≡ (err x, b))

-- What another worker can do with a task that is held.
pub record IsExclusive (id other : String) (b : Broker) : Type 0 where
  pub no_claim : Refuses (claim_task id other b) b
  pub no_start : Refuses (start_task id other b) b
  pub no_heartbeat : Refuses (heartbeat_task id other b) b
  pub no_failure : (error : Option TaskError) → Refuses (fail_task id other error b) b

stops_other :
    (t : TaskRecord) (other : String) (b : Broker)
    → claimed_by_other t other ≡ true
    → (x : BrokerError) × (assert_task_worker t other b ≡ (err x, b))
stops_other t other b held = elim (assert_task_worker-cases t other b) [
  | inl (e, (assigned, free)) ↦ absurd (cc (sym held ∙ free))
  | inr stopped ↦ stopped
]

held-IsExclusive :
    (id other : String) (b : Broker) (t : TaskRecord)
    → Dict.get b.tasks id ≡ some t
    → claimed_by_other t other ≡ true
    → IsExclusive id other b
unfolding claim_task start_task heartbeat_task fail_task require_task
held-IsExclusive id other b t found held =
    let (x, e) = stops_other t other b held in
    record {
      no_claim = (x, rw (found, e));
      no_start = (x, rw (found, e));
      no_heartbeat = (x, rw (found, e));
      no_failure = λ error. (x, rw (found, e));
    }

held_by_other :
    (t : TaskRecord) (worker other : String)
    → t.claimed_by ≡ some worker
    → worker == "" ≡ false
    → worker == other ≡ false
    → claimed_by_other t other ≡ true
held_by_other t worker other held named differs = ground arith

-- In a valid broker, once a worker (with a name) has claimed a task, every other worker that claims
-- it, starts it, sends its heartbeat or fails it gets an error, and the broker stays as it is.
pub claim_task-IsExclusive :
    (id worker other : String) (b : Broker) (t : TaskRecord)
    → IsValid b
    → worker == "" ≡ false
    → worker == other ≡ false
    → (claim_task id worker b).0 ≡ ok t
    → IsExclusive id other (claim_task id worker b).1
claim_task-IsExclusive id worker other b t v named differs e =
    let g = claim_task-Granted id worker b t e in
    let same_id = (v.stored id g.before g.found).0 in
    held-IsExclusive id other (claim_task id worker b).1 g.after
      (subst (λ k. Dict.get (claim_task id worker b).1.tasks k ≡ some g.after) same_id g.stored)
      (held_by_other g.after worker other g.held_by named differs)

-- In a valid broker, a task that has been claimed is claimed by nobody again, the same worker
-- included.
pub claim_task-once :
    (id worker again : String) (b : Broker) (t : TaskRecord)
    → IsValid b
    → (claim_task id worker b).0 ≡ ok t
    → Refuses (claim_task id again (claim_task id worker b).1) (claim_task id worker b).1
claim_task-once id worker again b t v e =
    let g = claim_task-Granted id worker b t e in
    let same_id = (v.stored id g.before g.found).0 in
    let b' : Broker = (claim_task id worker b).1 in
    let at : Dict.get b'.tasks id ≡ some g.after =
      subst (λ k. Dict.get b'.tasks k ≡ some g.after) same_id g.stored in
    elim (claim_task-cases id again b') [
      | inl refused ↦ refused
      | inr h ↦
          let same : h.before ≡ g.after = cc (sym h.found ∙ at) in
          absurd (not_queued h.before.status (ap (λ u. u.status) same ∙ g.status) h.waiting)
    ]
