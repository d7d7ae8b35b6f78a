-- ===== src/TerminalOutbox/Outbox.antt =====
-- src/core/terminal-event-outbox.ts, `TerminalTaskEventOutbox`. The payload of a record, which
-- buildTerminalTaskPayload and enqueueCrossBrokerProjection make, is an argument; so are the time of a
-- call and the cleaning of the notes. `seen` is the set of ids and `seen_order` its array.
use mathlib.Core.List.{[]}
use a2a_broker.Prelude.Dict
use a2a_broker.Prelude.Dict.{Dict}
use a2a_broker.EventBuffer.{trim}
use a2a_broker.Broker.Types.{TaskStatus, blocked, succeeded, failed, canceled}
use a2a_broker.TerminalOutbox.Types.{
  AckEvidence, provider_delivery_receipt, ReceiptStatus, accepted, provider_sent, Payload, AckState,
  ReceiptState, AckDecision, pending, eligible, confirmed, Reason, confirmed_from, receipt_is,
  AckAudit, OutboxEvent,
}
use a2a_broker.Prelude.{
  ℕ, List, ◌+◌, String, Bool, true, false, Option, ◌++◌, or_else, some, none, ◌∷◌, if◌then◌else◌,
  ◌==◌, one_of, ltb, length, not, leb, filter,
}

pub record Outbox : Type 0 where
  pub events : List OutboxEvent
  pub seen : List String
  pub seen_order : List String
  pub max_events : ℕ
  pub succeeded_child_ids : Dict (List String)

-- `new TerminalTaskEventOutbox`, before it restores: `maxEvents` absent or 0 means 1000.
unfoldable pub new : Option ℕ → Outbox
new max_events = record {
  events = [];
  seen = [];
  seen_order = [];
  max_events = if leb (or_else max_events 0) 0 then 1000 else or_else max_events 0;
  succeeded_child_ids = [];
}

abbrev pub max_seen : Outbox → ℕ
max_seen o = o.max_events + o.max_events

unfoldable pub is_terminal_status : TaskStatus → Bool
is_terminal_status succeeded = true
is_terminal_status failed = true
is_terminal_status canceled = true
is_terminal_status blocked = true
is_terminal_status _ = false

-- `a` where it is truthy
abbrev pub present : Option String → Option String
present none = none
present (some s) = if s == "" then none else some s

abbrev pub add : String → List String → List String
add s set = if one_of set s then set else set ++ s ∷ []

-- `if (evicted) this.seen.delete(evicted)`
abbrev pub delete : String → List String → List String
delete s set = if s == "" then set else filter (λ x. not (x == s)) set

-- The loop of `markSeen`, over `seenOrder` and `seen`.
unfoldable pub evict : ℕ → List String → List String → List String × List String
evict m [] seen = ([], seen)
evict m (s ∷ order) seen = elim (ltb m (length (s ∷ order))) [
  | true ↦ evict m order (delete s seen)
  | false ↦ (s ∷ order, seen)
]

unfoldable pub mark_seen : String → Outbox → Outbox
unfolding evict
mark_seen id o =
    let (order, seen) = evict (max_seen o) (o.seen_order ++ id ∷ []) (add id o.seen) in
    record o { seen = seen; seen_order = order }

-- `enforceRetention`, whose test and splice are those of the event buffer
unfoldable pub enforce_retention : Outbox → Outbox
unfolding trim
enforce_retention o = record o { events = trim o.max_events o.events }

unfoldable pub find_event : String → List OutboxEvent → Option OutboxEvent
find_event id [] = none
find_event id (e ∷ es) = let rest = find_event id es in if e.id == id then some e else rest

-- `findIndex`, with the record found; -1 is `none`.
unfoldable pub find_from : ℕ → String → List OutboxEvent → Option (ℕ × OutboxEvent)
find_from n id [] = none
find_from n id (e ∷ es) =
    let rest = find_from (n + 1) id es in if e.id == id then some (n, e) else rest

abbrev pub counted : Dict (List String) → String → List String
counted d run = or_else (Dict.get d run) []

unfoldable pub count_child : Payload → String → Dict (List String) → Dict (List String)
count_child p run d = elim p.status [
  | succeeded ↦ Dict.set d run (add p.task_id (counted d run))
  | _ ↦ d
]

-- `if (payload.parentRoundTotal)`
abbrev pub has_total : Option ℕ → Bool
has_total none = false
has_total (some n) = ltb 0 n

unfoldable pub apply_round_progress : Payload → Dict (List String) → Payload × Dict (List String)
unfolding count_child
apply_round_progress p d = elim (present p.run) [
  | none ↦ (p, d)
  | some run ↦
      let d' : Dict (List String) = count_child p run d in
      if has_total p.parent_round_total
      then (record p { parent_round_progress = some (length (counted d' run)) }, d')
      else (p, d')
]

-- The input of `buildAckAudit`
abbrev pub build_ack_audit :
    Payload
    → AckDecision
    → Reason
    → String
    → ReceiptStatus
    → Option AckEvidence
    → Option String
    → AckAudit
build_ack_audit p decision reason updated_at status evidence receipt_id = record {
  decision = decision;
  reason = reason;
  updated_at = updated_at;
  task_id = p.task_id;
  worker = present p.worker;
  repo = present p.repo;
  issue = p.issue;
  task_brief = present p.task_brief;
  run = present p.run;
  trace_id = present p.trace_id;
  receipt_status = some status;
  evidence = evidence;
  receipt_id = present receipt_id;
}

abbrev pub receipt_decision : ReceiptStatus → AckDecision
receipt_decision ReceiptStatus.operator_visible = eligible
receipt_decision ReceiptStatus.current_session_visible = eligible
receipt_decision _ = pending

-- `buildAckAudit(payload, ackAuditFromReceipt(receipt))`
abbrev pub audit_from_receipt : Payload → ReceiptState → AckAudit
audit_from_receipt p r =
    build_ack_audit p (receipt_decision r.status) (receipt_is r.status) r.updated_at r.status
      r.evidence r.receipt_id

-- `buildAckAudit` of a confirmed ack
abbrev pub audit_from_ack : Payload → AckState → ReceiptStatus → AckAudit
audit_from_ack p a status =
    build_ack_audit p confirmed (confirmed_from a.evidence) a.acknowledged_at status
      (some a.evidence) a.receipt_id

abbrev pub evidence_status : AckEvidence → ReceiptStatus
evidence_status provider_delivery_receipt = provider_sent
evidence_status AckEvidence.current_session_visible = ReceiptStatus.current_session_visible
evidence_status _ = ReceiptStatus.operator_visible

abbrev pub build_receipt_from_ack : AckState → ReceiptState
build_receipt_from_ack a = record {
  status = evidence_status a.evidence;
  updated_at = a.acknowledged_at;
  evidence = some a.evidence;
  receipt_id = a.receipt_id;
  note = a.note;
}

abbrev pub bare_receipt : ReceiptStatus → String → Option String → ReceiptState
bare_receipt status at note = record {
  status = status;
  updated_at = at;
  evidence = none;
  receipt_id = none;
  note = note;
}

abbrev pub new_event : String → ℕ → Payload → String → Reason → OutboxEvent
new_event id task_event_id p at reason = record {
  id = id;
  task_event_id = task_event_id;
  payload = p;
  created_at = at;
  ack = none;
  receipt = bare_receipt accepted at none;
  ack_audit = some (build_ack_audit p pending reason at accepted none none);
  delivered_at = none;
  attempts = 0;
}

-- `this.events.push(event); this.markSeen(id)`
unfoldable pub append_event : OutboxEvent → Outbox → Outbox
unfolding mark_seen
append_event e o = mark_seen e.id (record o { events = o.events ++ e ∷ [] })

-- What both ways to enqueue do once they have the id.
unfoldable pub enqueue_under :
    String → ℕ → Payload → String → Reason → Outbox → Outbox × Option OutboxEvent
unfolding find_event apply_round_progress append_event enforce_retention
enqueue_under id task_event_id p at reason o = elim (find_event id o.events) [
  | some existing ↦ (o, some existing)
  | none ↦ elim (one_of o.seen id) [
    | true ↦ (o, none)
    | false ↦
        let (p', d) = apply_round_progress p o.succeeded_child_ids in
        let e : OutboxEvent = new_event id task_event_id p' at reason in
        (enforce_retention (append_event e (record o { succeeded_child_ids = d })), some e)
  ]
]
