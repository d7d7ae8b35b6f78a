-- ===== src/Broker/Numbers.antt =====
-- The numbers of the task updates: a task's buffer, with its counter, is a cursor event buffer.
use a2a_broker.Prelude.{
  ℕ, ◌+◌, refl, String, not, ◌&&◌, List, [], ◌∷◌, ◌++◌, or_else, is_some, ◌==◌, Bool-cases, inl,
  inr, ◌≡◌,
}
use a2a_broker.Prelude.Dict
use a2a_broker.Prelude.Dict.{Dict}
use a2a_broker.EventBuffer.{CursorEventBuffer, emit, trim}
use a2a_broker.EventBuffer.Order.{IsOrdered, emit-IsOrdered}
use a2a_broker.Broker.Types.{TaskRecord, TaskUpdate, UpdateReason, is_terminal}
use a2a_broker.Broker.State.{Broker, emit_task_update, has_listeners}

-- A task's updates and its counter.
abbrev pub view : Dict ℕ → Dict (List TaskUpdate) → ℕ → String → CursorEventBuffer TaskUpdate
view seqs buffers kept k = record {
  events = or_else (Dict.get buffers k) [];
  max_events = kept;
  next_id = or_else (Dict.get seqs k) 0;
}

-- Each task's buffered updates have ascending numbers, at most the task's counter.
abbrev pub IsNumbered : Broker → Type 0
IsNumbered b =
    (k : String)
    → IsOrdered (λ u. u.seq) (view b.event_seqs b.event_buffers b.max_buffered_events k)

abbrev update_of : TaskRecord → UpdateReason → ℕ → TaskUpdate
update_of t reason seq = record {
  task = t;
  reason = reason;
  final = is_terminal t.status;
  seq = seq;
}

numbered_set :
    (b : Broker) (t : TaskRecord) (reason : UpdateReason) (k : String)
    → IsNumbered b
    → IsOrdered
        (λ u. u.seq)
        (view
          (Dict.set b.event_seqs t.id (or_else (Dict.get b.event_seqs t.id) 0 + 1))
          (Dict.set b.event_buffers t.id (
            trim b.max_buffered_events (
              or_else (Dict.get b.event_buffers t.id) []
              ++ update_of t reason (or_else (Dict.get b.event_seqs t.id) 0 + 1) ∷ [])))
          b.max_buffered_events
          k)
unfolding emit
numbered_set b t reason k n = elim (Bool-cases (t.id == k)) [
  | inl same ↦
      rw
        (
          Dict.get-set_same b.event_seqs t.id k (or_else (Dict.get b.event_seqs t.id) 0 + 1) same,
          Dict.get-set_same b.event_buffers t.id k
              (trim b.max_buffered_events (
                or_else (Dict.get b.event_buffers t.id) []
                ++ update_of t reason (or_else (Dict.get b.event_seqs t.id) 0 + 1) ∷ []))
              same,
        )
        (emit-IsOrdered (λ u. u.seq) (view b.event_seqs b.event_buffers b.max_buffered_events t.id)
          (update_of t reason) refl (n t.id))
  | inr other ↦
      rw
        (
          Dict.get-set_other b.event_seqs t.id k (or_else (Dict.get b.event_seqs t.id) 0 + 1) other,
          Dict.get-set_other b.event_buffers t.id k
              (trim b.max_buffered_events (
                or_else (Dict.get b.event_buffers t.id) []
                ++ update_of t reason (or_else (Dict.get b.event_seqs t.id) 0 + 1) ∷ []))
              other,
        )
        (n k)
]

-- An update carries the next number of its task.
pub emit_task_update-IsNumbered :
    (t : TaskRecord) (reason : UpdateReason) (b : Broker)
    → IsNumbered b
    → IsNumbered (emit_task_update t reason b).1
unfolding emit_task_update
emit_task_update-IsNumbered t reason b n k =
    let active = has_listeners (Dict.get b.listeners t.id) in
    elim (Bool-cases (not active && not (is_some (Dict.get b.event_buffers t.id)))) [
      | inl silent ↦ rw silent (n k)
      | inr heard ↦ rw heard (numbered_set b t reason k n)
    ]

pub IsNumbered-same :
    (b b' : Broker)
    → b'.event_seqs ≡ b.event_seqs
    → b'.event_buffers ≡ b.event_buffers
    → b'.max_buffered_events ≡ b.max_buffered_events
    → IsNumbered b
    → IsNumbered b'
IsNumbered-same b b' seqs buffers kept n k = rw (seqs, buffers, kept) (n k)
