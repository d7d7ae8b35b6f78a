-- ===== src/Broker/Turns.antt =====
-- How the closing lines of an operation make a turn, and what the worker's check lets through.
use a2a_broker.Prelude.{
  ℕ, ◌≡◌, ap, ◌∙◌, String, true, false, Option, some, ◌⊎◌, inl, inr, or_else, ◌==◌, Bool-cases,
  Option-cases, refl,
}
use a2a_broker.Prelude.Dict
use a2a_broker.Prelude.Exec.{ok, err, pure, ◌>>◌, Result}
use a2a_broker.Prelude.Trim.{normalize_string}
use a2a_broker.Broker.Types.{
  ExchangeStatus, AuditAction, Message, UpdateReason, TombstoneReason, TaskRecord,
}
use a2a_broker.Broker.State.{
  Broker, BrokerError, commit_task, write_tombstone, policy_denied, not_found,
}
use a2a_broker.Broker.Guards.{assert_task_worker, owner_differs, claimed_by_other}
use a2a_broker.Broker.Frame.{Frame, commit_task-Saves, write_tombstone-Buries, Frame-refl}
use a2a_broker.Broker.Lifecycle.{edge, needs_stone, Turns, rest, turn, Turn, IsSound}

-- The worker that may act on a task, and does not act on another's claim.
abbrev pub IsHolder : TaskRecord → String → Type 0
IsHolder t worker =
    (worker == or_else t.assigned_worker_id t.target_node_id ≡ true)
    × (claimed_by_other t worker ≡ false)

pub assert_task_worker-cases :
    (t : TaskRecord) (worker : String) (b : Broker)
    → ((assert_task_worker t worker b ≡ (ok tt, b)) × IsHolder t worker)
      ⊎ ((x : BrokerError) × (assert_task_worker t worker b ≡ (err x, b)))
unfolding assert_task_worker
assert_task_worker-cases t worker b =
    elim (Bool-cases (owner_differs (normalize_string t.broker_of_record) b.broker_id)) [
      | inl other ↦ inr (policy_denied, rw other)
      | inr broker_ok ↦ elim (Bool-cases (owner_differs (normalize_string t.team_id) b.team_id)) [
        | inl other ↦ inr (policy_denied, rw (broker_ok, other))
        | inr team_ok ↦ elim (Option-cases (Dict.get b.workers worker)) [
          | inl missing ↦ inr (not_found, rw (broker_ok, team_ok, missing))
          | inr (w, found) ↦
              elim (Bool-cases (worker == or_else t.assigned_worker_id t.target_node_id)) [
                | inr stranger ↦ inr (policy_denied, rw (broker_ok, team_ok, found, stranger))
                | inl assigned ↦ elim (Bool-cases (claimed_by_other t worker)) [
                  | inl taken ↦ inr (policy_denied, rw (broker_ok, team_ok, found, assigned, taken))
                  | inr free ↦
                      inl (rw (broker_ok, team_ok, found, assigned, free), (assigned, free))
                ]
              ]
        ]
      ]
    ]

-- An operation on a task throws and has changed nothing, or answers after turns along the diagram.
pub data Runs (b : Broker) : Result BrokerError TaskRecord × Broker → Type 0 where
  refused : {x : BrokerError} → Runs b (err x, b)
  answered : {t : TaskRecord} {b' : Broker} → Turns b b' → Runs b (ok t, b')

pub Runs-Turns : {b : Broker} {r : Result BrokerError TaskRecord × Broker} → Runs b r → Turns b r.1
Runs-Turns {b} refused = rest (Frame-refl b)
Runs-Turns (answered ts) = ts

pub Runs-error :
    {b : Broker} {r : Result BrokerError TaskRecord × Broker} {x : BrokerError}
    → Runs b r
    → r.0 ≡ err x
    → r.1 ≡ b
Runs-error refused e = refl
Runs-error (answered ts) e = absurd (cc e)

-- What an operation owes for the record that it writes.
pub record Legal (t t' : TaskRecord) : Type 0 where
  pub same_id : t'.id ≡ t.id
  pub same_parent : t'.parent_task_id ≡ t.parent_task_id
  pub same_policy : t'.policy_context ≡ t.policy_context
  pub legal : edge t.status t'.status ≡ true
  pub keeps : (limit : ℕ) → IsSound limit t → IsSound limit t'

commit-Turn :
    (k : String) (t t' : TaskRecord) (b : Broker) (status : ExchangeStatus) (actor : String)
    (action : AuditAction) (text : Option Message) (reason : UpdateReason)
    → Dict.get b.tasks k ≡ some t
    → Legal t t'
    → needs_stone t'.status ≡ false
    → Turn b (commit_task t' status actor action text reason b).1
commit-Turn k t t' b status actor action text reason found l alive =
    let s = (commit_task-Saves t' status actor action text reason b).1 in
    record {
      key = k;
      old = t;
      new = t';
      found = found;
      same_id = l.same_id;
      same_parent = l.same_parent;
      same_policy = l.same_policy;
      legal = l.legal;
      keeps = l.keeps b.max_requeue_attempts;
      written = s.written;
      limit = s.limit;
      numbers = s.numbers;
      workers = s.workers;
      stone = inl (alive, s.tombstones);
    }

-- The commit of a task that is not over, and the record as the answer.
pub save-Runs :
    (k : String) (t t' : TaskRecord) (b b₁ : Broker) (status : ExchangeStatus) (actor : String)
    (action : AuditAction) (text : Option Message) (reason : UpdateReason)
    → Frame b b₁
    → Dict.get b.tasks k ≡ some t
    → Legal t t'
    → needs_stone t'.status ≡ false
    → Runs b ((commit_task t' status actor action text reason >> pure t') b₁)
save-Runs k t t' b b₁ status actor action text reason f found l alive =
    rw (commit_task-Saves t' status actor action text reason b₁).0 (
      answered (
        turn (rest f)
          (commit-Turn k t t' b₁ status actor action text reason (rw f.tasks found) l alive)))

-- The commit of a task that is over, its tombstone, and the record as the answer.
pub bury-Runs :
    (k : String) (t t' : TaskRecord) (at : ℕ) (b b₁ : Broker) (status : ExchangeStatus)
    (actor : String) (action : AuditAction) (text : Option Message) (reason : UpdateReason)
    (why : TombstoneReason) (by : Option String) (cause : Option Message)
    → Frame b b₁
    → Dict.get b.tasks k ≡ some t
    → Legal t t'
    → t'.completed_at ≡ some at
    → Runs b (
        (commit_task t' status actor action text reason
            >> (write_tombstone t' why by cause >> pure t'))
          b₁)
bury-Runs k t t' at b b₁ status actor action text reason why by cause f found l ended =
    let (o₁, s) = commit_task-Saves t' status actor action text reason b₁ in
    let b₂ : Broker = (commit_task t' status actor action text reason b₁).1 in
    let (o₂, g) = write_tombstone-Buries t' why by cause at b₂ ended in
    rw (o₁, o₂)
      (answered (
        turn (rest f) (record {
          key = k;
          old = t;
          new = t';
          found = rw f.tasks found;
          same_id = l.same_id;
          same_parent = l.same_parent;
          same_policy = l.same_policy;
          legal = l.legal;
          keeps = l.keeps b₁.max_requeue_attempts;
          written = g.tasks ∙ s.written;
          limit = g.limit ∙ s.limit;
          numbers = λ n. g.numbers (s.numbers n);
          workers = g.workers ∙ s.workers;
          stone =
              inr (g.stone, g.written ∙ ap (λ m. Dict.set m t'.id g.stone) s.tombstones, g.says);
        })))
