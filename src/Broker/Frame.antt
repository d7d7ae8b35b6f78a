-- ===== src/Broker/Frame.antt =====
-- What the shared closing lines of the task operations change: one task, and its tombstone.
use a2a_broker.Prelude.{◌≡◌, refl, ◌∙◌, String, Option, arith, ℕ, some, or_else, ◌+◌}
use a2a_broker.Prelude.Dict
use a2a_broker.Prelude.Exec.{ok}
use a2a_broker.Broker.Types.{
  TaskRecord, ExchangeStatus, AuditAction, task_heartbeat, task_tombstoned, tombstone_of, Message,
  UpdateReason, Tombstone, TombstoneReason,
}
use a2a_broker.Broker.Numbers.{IsNumbered, IsNumbered-same, emit_task_update-IsNumbered}
use a2a_broker.Broker.State.{
  Broker, Action, audit_id, append_audit, sync_exchange, emit_task_update, commit_task,
  write_tombstone,
}

-- The parts of the state that the closing lines leave alone.
pub record Frame (b b' : Broker) : Type 0 where
  pub tasks : b'.tasks ≡ b.tasks
  pub tombstones : b'.tombstones ≡ b.tombstones
  pub workers : b'.workers ≡ b.workers
  pub limit : b'.max_requeue_attempts ≡ b.max_requeue_attempts
  pub numbers : IsNumbered b → IsNumbered b'

pub Frame-refl : (b : Broker) → Frame b b
Frame-refl b = record {
  tasks = refl;
  tombstones = refl;
  workers = refl;
  limit = refl;
  numbers = λ n. n;
}

pub Frame-trans : (a b c : Broker) → Frame a b → Frame b c → Frame a c
Frame-trans a b c f g = record {
  tasks = g.tasks ∙ f.tasks;
  tombstones = g.tombstones ∙ f.tombstones;
  workers = g.workers ∙ f.workers;
  limit = g.limit ∙ f.limit;
  numbers = λ n. g.numbers (f.numbers n);
}

-- An action that always succeeds and keeps the frame.
abbrev pub Quiet : Action (Unit {0}) → Broker → Type 0
Quiet m b = ((m b).0 ≡ ok tt) × Frame b (m b).1

audit_id-Frame :
    (action : AuditAction) (target : String) (b : Broker)
    → (id : String) × (c : Broker) × (audit_id action target b ≡ (ok id, c)) × Frame b c
unfolding audit_id
audit_id-Frame task_heartbeat target b = (_, b, refl, Frame-refl b)
audit_id-Frame _ target b = (
  _,
  _,
  refl,
  record { tasks = refl; tombstones = refl; workers = refl; limit = refl; numbers = λ n. n },
)

pub append_audit-Quiet :
    (actor : String) (action : AuditAction) (target : String) (proposal : Option String)
    (text : Option Message) (b : Broker)
    → Quiet (append_audit actor action target proposal text) b
unfolding append_audit
append_audit-Quiet actor action target proposal text b =
    let (id, c, e, f) = audit_id-Frame action target b in
    rw e (
      refl,
      record {
        tasks = f.tasks;
        tombstones = f.tombstones;
        workers = f.workers;
        limit = f.limit;
        numbers = f.numbers;
      },
    )

pub sync_exchange-Quiet :
    (t : TaskRecord) (status : ExchangeStatus) (b : Broker) → Quiet (sync_exchange t status) b
unfolding sync_exchange
sync_exchange-Quiet t status b = (
  ground arith,
  record {
    tasks = ground arith;
    tombstones = ground arith;
    workers = ground arith;
    limit = ground arith;
    numbers =
        IsNumbered-same b (sync_exchange t status b).1 (ground arith) (ground arith) (ground arith);
  },
)

pub emit_task_update-Quiet :
    (t : TaskRecord) (reason : UpdateReason) (b : Broker) → Quiet (emit_task_update t reason) b
unfolding emit_task_update
emit_task_update-Quiet t reason b = (
  ground arith,
  record {
    tasks = ground arith;
    tombstones = ground arith;
    workers = ground arith;
    limit = ground arith;
    numbers = emit_task_update-IsNumbered t reason b;
  },
)

-- A task is written, and nothing else of the frame.
pub record Saves (t : TaskRecord) (b b' : Broker) : Type 0 where
  pub written : b'.tasks ≡ Dict.set b.tasks t.id t
  pub tombstones : b'.tombstones ≡ b.tombstones
  pub workers : b'.workers ≡ b.workers
  pub limit : b'.max_requeue_attempts ≡ b.max_requeue_attempts
  pub numbers : IsNumbered b → IsNumbered b'

pub commit_task-Saves :
    (t : TaskRecord) (status : ExchangeStatus) (actor : String) (action : AuditAction)
    (text : Option Message) (reason : UpdateReason) (b : Broker)
    → ((commit_task t status actor action text reason b).0 ≡ ok tt)
      × Saves t b (commit_task t status actor action text reason b).1
unfolding commit_task
commit_task-Saves t status actor action text reason b =
    let b₁ : Broker = record b { tasks = Dict.set b.tasks t.id t } in
    let (o₁, f₁) = sync_exchange-Quiet t status b₁ in
    let b₂ : Broker = (sync_exchange t status b₁).1 in
    let (o₂, f₂) = append_audit-Quiet actor action t.id t.proposal_id text b₂ in
    let b₃ : Broker = (append_audit actor action t.id t.proposal_id text b₂).1 in
    let (o₃, f₃) = emit_task_update-Quiet t reason b₃ in
    rw (o₁, o₂)
      (
        o₃,
        record {
          written = f₃.tasks ∙ f₂.tasks ∙ f₁.tasks;
          tombstones = f₃.tombstones ∙ f₂.tombstones ∙ f₁.tombstones;
          workers = f₃.workers ∙ f₂.workers ∙ f₁.workers;
          limit = f₃.limit ∙ f₂.limit ∙ f₁.limit;
          numbers = λ n. f₃.numbers (f₂.numbers (f₁.numbers n));
        },
      )

-- A task gets a tombstone, and nothing else of the frame changes.
pub record Buries (t : TaskRecord) (b b' : Broker) : Type 0 where
  pub stone : Tombstone
  pub written : b'.tombstones ≡ Dict.set b.tombstones t.id stone
  pub says : stone.terminal_status ≡ t.status
  pub tasks : b'.tasks ≡ b.tasks
  pub workers : b'.workers ≡ b.workers
  pub limit : b'.max_requeue_attempts ≡ b.max_requeue_attempts
  pub numbers : IsNumbered b → IsNumbered b'

pub write_tombstone-Buries :
    (t : TaskRecord) (reason : TombstoneReason) (actor : Option String) (text : Option Message)
    (at : ℕ) (b : Broker)
    → t.completed_at ≡ some at
    → ((write_tombstone t reason actor text b).0 ≡ ok tt)
      × Buries t b (write_tombstone t reason actor text b).1
unfolding write_tombstone
write_tombstone-Buries t reason actor text at b ended =
    let stone : Tombstone = record {
      task_id = t.id;
      terminal_status = t.status;
      tombstone_reason = reason;
      created_at = t.created_at;
      completed_at = at;
      requeue_count = or_else t.requeue_count 0;
      error = t.error;
      result = t.result;
      tombstoned_at = b.clock b.readings;
      actor_id = actor;
      cancel_reason = text;
    } in
    let b₁ : Broker = record b {
      readings = b.readings + 1;
      tombstones = Dict.set b.tombstones t.id stone;
    } in
    let (o, f) =
      append_audit-Quiet (or_else actor "broker") task_tombstoned t.id t.proposal_id
        (some (tombstone_of reason)) b₁ in
    simp ended (
      o,
      record {
        stone = stone;
        written = f.tombstones;
        says = refl;
        tasks = f.tasks;
        workers = f.workers;
        limit = f.limit;
        numbers = f.numbers;
      },
    )
