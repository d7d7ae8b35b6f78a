-- ===== src/Broker/Lifecycle.antt =====
-- The life of a task: the diagram of its status, what each status requires of the record, and the
-- turns in which an operation changes the broker's tasks.
use a2a_broker.Prelude.{
  ℕ, ◌≤◌, ◌<◌, ◌≡◌, refl, sym, ◌∙◌, subst, String, Bool, true, false, some, arith, is_some, ◌⊎◌,
  inl, inr, ◌==◌, eq_iff, Bool-cases,
}
use a2a_broker.Prelude.Dict
use a2a_broker.Broker.Types.{
  TaskStatus, blocked, queued, claimed, running, failed, canceled, TaskRecord, Tombstone,
  is_terminal,
}
use a2a_broker.Broker.Numbers.{IsNumbered}
use a2a_broker.Broker.State.{Broker}
use a2a_broker.Broker.Guards.{is_active, is_waiting, requires_approval}
use a2a_broker.Broker.Requeue.{requeues_of}
use a2a_broker.Broker.Frame.{Frame}

-- The edges that the operations of this model follow, a renewed record with the same status
-- included.
abbrev pub edge : TaskStatus → TaskStatus → Bool
edge blocked blocked = true
edge blocked queued = true
edge blocked canceled = true
edge queued queued = true
edge queued blocked = true
edge queued claimed = true
edge queued canceled = true
edge claimed claimed = true
edge claimed running = true
edge claimed queued = true
edge claimed blocked = true
edge claimed failed = true
edge claimed canceled = true
edge running running = true
edge running queued = true
edge running blocked = true
edge running failed = true
edge running canceled = true
edge _ _ = false

abbrev pub is_failed : TaskStatus → Bool
is_failed failed = true
is_failed _ = false

abbrev pub is_canceled : TaskStatus → Bool
is_canceled canceled = true
is_canceled _ = false

-- A task that succeeded gets no tombstone.
abbrev pub needs_stone : TaskStatus → Bool
needs_stone failed = true
needs_stone canceled = true
needs_stone _ = false

-- What each status requires of the record, under a limit on requeues (0 is no limit).
pub record IsSound (limit : ℕ) (t : TaskRecord) : Type 0 where
  pub idle :
      is_waiting t.status ≡ true → (is_some t.claimed_by ≡ false) × (is_some t.completed_at ≡ false)
  pub held :
      is_active t.status ≡ true → (is_some t.claimed_by ≡ true) × (is_some t.attempt_id ≡ true)
  pub gated : is_active t.status ≡ true → requires_approval t ≡ true → is_some t.approval ≡ true
  pub ended : is_terminal t.status ≡ true → is_some t.completed_at ≡ true
  pub explained : is_failed t.status ≡ true → is_some t.error ≡ true
  pub accounted : is_canceled t.status ≡ true → is_some t.cancellation ≡ true
  pub budget : 0 < limit → requeues_of t ≤ limit

-- One task is written, along an edge; it gets its tombstone if it is over.
pub record Turn (b b' : Broker) : Type 0 where
  pub key : String
  pub old : TaskRecord
  pub new : TaskRecord
  pub found : Dict.get b.tasks key ≡ some old
  pub same_id : new.id ≡ old.id
  pub same_parent : new.parent_task_id ≡ old.parent_task_id
  pub same_policy : new.policy_context ≡ old.policy_context
  pub legal : edge old.status new.status ≡ true
  pub keeps : IsSound b.max_requeue_attempts old → IsSound b.max_requeue_attempts new
  pub written : b'.tasks ≡ Dict.set b.tasks new.id new
  pub limit : b'.max_requeue_attempts ≡ b.max_requeue_attempts
  pub numbers : IsNumbered b → IsNumbered b'
  pub workers : b'.workers ≡ b.workers
  pub stone :
      ((needs_stone new.status ≡ false) × (b'.tombstones ≡ b.tombstones))
      ⊎ ((s : Tombstone) × (b'.tombstones ≡ Dict.set b.tombstones new.id s)
          × (s.terminal_status ≡ new.status))

no_exit : (s s' : TaskStatus) → edge s s' ≡ true → is_terminal s ≡ true → ⊥
no_exit s s' e t = ground arith

pub data Turns (b : Broker) : Broker → Type 0 where
  rest : {b' : Broker} → Frame b b' → Turns b b'
  turn : {c d : Broker} → Turns b c → Turn c d → Turns b d
  settle : {c d : Broker} → Turns b c → Frame c d → Turns b d

abbrev pub IsStored : ℕ → String → TaskRecord → Type 0
IsStored limit k t = (t.id ≡ k) × IsSound limit t

-- The tombstone that a task which failed or was canceled has.
abbrev pub HasStone : Broker → String → TaskRecord → Type 0
HasStone b k t =
    needs_stone t.status ≡ true
    → (s : Tombstone) × (Dict.get b.tombstones k ≡ some s) × (s.terminal_status ≡ t.status)

pub record IsValid (b : Broker) : Type 0 where
  pub stored : Dict.Holds (IsStored b.max_requeue_attempts) b.tasks
  pub buried : Dict.Holds (HasStone b) b.tasks

Frame-IsValid : (b b' : Broker) → Frame b b' → IsValid b → IsValid b'
Frame-IsValid b b' f v = record {
  stored = rw (f.tasks, f.limit) v.stored;
  buried = rw (f.tasks, f.tombstones) v.buried;
}

Turn-IsStored :
    (b b' : Broker) → Turn b b' → IsValid b → Dict.Holds (IsStored b'.max_requeue_attempts) b'.tasks
Turn-IsStored b b' s v =
    let (named, sound) = v.stored s.key s.old s.found in
    rw (s.written, s.limit)
      (Dict.Holds-set (IsStored b.max_requeue_attempts) b.tasks s.new.id s.new v.stored
        (refl, s.keeps sound))

Turn-HasStone : (b b' : Broker) → Turn b b' → IsValid b → Dict.Holds (HasStone b') b'.tasks
Turn-HasStone b b' s v k t found over = elim (Bool-cases (s.new.id == k)) [
  | inl same ↦
      let is_new : some s.new ≡ some t =
        sym (Dict.get-set_same b.tasks s.new.id k s.new same)
        ∙ subst (λ m. Dict.get m k ≡ some t) s.written found in
      elim s.stone [
        | inl (alive, e) ↦ cc (alive, is_new, over)
        | inr (stone, e, says) ↦ (
          stone,
          subst (λ m. Dict.get m k ≡ some stone) (sym e)
              (Dict.get-set_same b.tombstones s.new.id k stone same),
          cc (says, is_new),
        )
      ]
  | inr other ↦
      let before : Dict.get b.tasks k ≡ some t =
        sym (Dict.get-set_other b.tasks s.new.id k s.new other)
        ∙ subst (λ m. Dict.get m k ≡ some t) s.written found in
      let (stone, was, says) = v.buried k t before over in
      elim s.stone [
        | inl (alive, e) ↦ (stone, subst (λ m. Dict.get m k ≡ some stone) (sym e) was, says)
        | inr (fresh, e, told) ↦ (
          stone,
          subst (λ m. Dict.get m k ≡ some stone) (sym e)
              (Dict.get-set_other b.tombstones s.new.id k fresh other ∙ was),
          says,
        )
      ]
]

pub Turns-IsValid : {b b' : Broker} → Turns b b' → IsValid b → IsValid b'
Turns-IsValid {b} {b'} (rest f) v = Frame-IsValid b b' f v
Turns-IsValid {b} {b'} (turn {c} {d} ts s) v =
    let w = Turns-IsValid ts v in
    record { stored = Turn-IsStored c d s w; buried = Turn-HasStone c d s w }
Turns-IsValid {b} {b'} (settle {c} {d} ts f) v = Frame-IsValid c d f (Turns-IsValid ts v)

-- A task that is over stays as it is, to the last field.
pub Turns-terminal :
    {b b' : Broker} (k : String) (t : TaskRecord)
    → Turns b b'
    → IsValid b
    → Dict.get b.tasks k ≡ some t
    → is_terminal t.status ≡ true
    → Dict.get b'.tasks k ≡ some t
Turns-terminal k t (rest f) v found over = rw f.tasks found
Turns-terminal k t (settle ts f) v found over = rw f.tasks (Turns-terminal k t ts v found over)
Turns-terminal k t (turn {c} {d} ts s) v found over =
    let held = Turns-terminal k t ts v found over in
    let (named, sound) = (Turns-IsValid ts v).stored s.key s.old s.found in
    elim (Bool-cases (s.new.id == k)) [
      | inl same ↦
          let at : s.key ≡ k = sym named ∙ sym s.same_id ∙ (eq_iff s.new.id k).0 same in
          let old_is_t : some s.old ≡ some t =
            sym (subst (λ i. Dict.get c.tasks i ≡ some s.old) at s.found) ∙ held in
          absurd (no_exit s.old.status s.new.status s.legal (cc (over, old_is_t)))
      | inr other ↦
          subst (λ m. Dict.get m k ≡ some t) (sym s.written)
            (Dict.get-set_other c.tasks s.new.id k s.new other ∙ held)
    ]

pub Turns-trans : {a b c : Broker} → Turns a b → Turns b c → Turns a c
Turns-trans ts (rest f) = settle ts f
Turns-trans ts (turn us s) = turn (Turns-trans ts us) s
Turns-trans ts (settle us f) = settle (Turns-trans ts us) f

-- The numbers of the updates stay in order.
pub Turns-IsNumbered : {b b' : Broker} → Turns b b' → IsNumbered b → IsNumbered b'
Turns-IsNumbered (rest f) n = f.numbers n
Turns-IsNumbered (turn ts s) n = s.numbers (Turns-IsNumbered ts n)
Turns-IsNumbered (settle ts f) n = f.numbers (Turns-IsNumbered ts n)
