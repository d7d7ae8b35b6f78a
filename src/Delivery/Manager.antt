-- ===== src/Delivery/Manager.antt =====
-- src/core/delivery-lifecycle.ts, `DeliveryManager`. A delivery is changed in place, so each change is
-- written back under its id. The clock and the id factory are arguments of the calls.
use a2a_broker.Prelude.{
  ℕ, ◌+◌, String, Bool, true, false, not, [], Option, none, some, is_some, or_else, or_option,
  truthy, ltb, leb, ◌==◌, ◌||◌, if◌then◌else◌,
}
use a2a_broker.Prelude.Integers.{ℤ, difference}
use a2a_broker.Prelude.Dict
use a2a_broker.Prelude.Dict.{Dict}
use a2a_broker.Prelude.Exec.{Exec, pure, modify, throw_if, or_raise, ◌>>=◌, ◌>>◌, gets}
use a2a_broker.EventBuffer
use a2a_broker.EventBuffer.{CursorEventBuffer}
use a2a_broker.Delivery.Types.{
  DeliveryState, DeliveryArtifact, DeliveryStatus, result_ready, delivery_pending, delivering,
  delivered, acked, failed, retrying, timed_out, transitions, FailureCode, max_retries_exceeded,
  resolve_failure_code, EventKind, del_result_ready, status_to_event_kind, Metadata, DeliveryEvent,
}

pub record Manager : Type 0 where
  pub deliveries : Dict DeliveryState
  pub run_index : Dict String
  pub buffer : CursorEventBuffer DeliveryEvent
  pub default_max_retries : ℕ

-- `DeliveryError.code`, and the TypeError of a write to `undefined`.
pub data DeliveryError : Type 0 where
  not_found invalid_transition invalid_retry type_error : DeliveryError

pub record RegisterInput : Type 0 where
  pub run_id : String
  pub originator_session_key : String
  pub originator_node_id : String
  pub parent_task_id : Option String
  pub artifact : DeliveryArtifact
  pub delivery_deadline : Option String
  pub ack_deadline : Option String
  pub channel : Option String
  pub max_retries : Option ℕ

abbrev pub Action : Type 0 → Type 0
Action = Exec Manager DeliveryError

-- `maxEvents` 0 or absent means 500, `defaultMaxRetries` absent means 3.
unfoldable pub new : Option ℕ → Option ℕ → Manager
unfolding EventBuffer.new
new max_events default_max_retries = record {
  deliveries = [];
  run_index = [];
  buffer = EventBuffer.new (if leb (or_else max_events 0) 0 then 500 else or_else max_events 0);
  default_max_retries = or_else default_max_retries 3;
}

unfoldable pub emit_event : DeliveryState → EventKind → Metadata → ℕ → Manager → Manager
emit_event d kind metadata now m = record m {
  buffer = EventBuffer.emit m.buffer (λ event_id. record {
    id = event_id;
    timestamp = now;
    delivery_id = d.delivery_id;
    run_id = d.run_id;
    originator_session_key = d.originator_session_key;
    originator_node_id = d.originator_node_id;
    parent_task_id = d.parent_task_id;
    kind = kind;
    metadata = metadata;
  });
}

abbrev pub save : String → DeliveryState → Manager → Manager
save id d m = record m { deliveries = Dict.set m.deliveries id d }

unfoldable pub get_delivery : Manager → String → Option DeliveryState
get_delivery m id = Dict.get m.deliveries id

-- `existingId` where it is truthy
unfoldable pub existing_id : Manager → String → Option String
existing_id m run = elim (Dict.get m.run_index run) [
  | none ↦ none
  | some id ↦ if id == "" then none else some id
]

unfoldable pub get_delivery_by_run_id : Manager → String → Option DeliveryState
get_delivery_by_run_id m run = elim (existing_id m run) [
  | none ↦ none
  | some id ↦ Dict.get m.deliveries id
]

abbrev pub fresh_state : RegisterInput → String → ℕ → ℕ → DeliveryState
fresh_state input id max_retries now = record {
  delivery_id = id;
  run_id = input.run_id;
  originator_session_key = input.originator_session_key;
  originator_node_id = input.originator_node_id;
  parent_task_id = input.parent_task_id;
  status = result_ready;
  artifact = input.artifact;
  failure_code = none;
  attempt = 1;
  max_retries = max_retries;
  delivery_deadline = input.delivery_deadline;
  ack_deadline = none;
  channel = input.channel;
  acknowledged = false;
  duplicate_suppressed = false;
  created_at = now;
  updated_at = now;
  delivery_started_at = none;
  delivered_at = none;
  acked_at = none;
  completed_at = none;
}

abbrev pub registered_metadata : ℕ → Metadata
registered_metadata max_retries = record {
  failure_code = none;
  attempt = 1;
  max_retries = some max_retries;
  delivery_deadline = none;
  ack_deadline = none;
  delivery_duration_ms = none;
  ack_duration_ms = none;
  channel = none;
}

abbrev pub index_run : String → String → Manager → Manager
index_run run id m = record m { run_index = Dict.set m.run_index run id }

-- `registerDelivery` where the run has a delivery
unfoldable pub suppress_duplicate : String → Action DeliveryState
suppress_duplicate existing = do
  d ← gets (λ (m : Manager). Dict.get m.deliveries existing)
  delivery ← or_raise d type_error
  modify (save existing (record delivery { duplicate_suppressed = true }))
  pure (record delivery { duplicate_suppressed = true })

-- `registerDelivery` where it has none
unfoldable pub register_new : RegisterInput → String → ℕ → ℕ → Action DeliveryState
unfolding emit_event
register_new input id now emitted m =
    let max_retries : ℕ = or_else input.max_retries m.default_max_retries in
    let d : DeliveryState = fresh_state input id max_retries now in
    (do
      modify (save id d)
      modify (index_run input.run_id id)
      modify (emit_event d del_result_ready (registered_metadata max_retries) emitted)
      pure d)
      m

abbrev pub register_with : Option String → RegisterInput → String → ℕ → ℕ → Action DeliveryState
register_with none input id now emitted = register_new input id now emitted
register_with (some existing) input id now emitted = suppress_duplicate existing

-- The id is the one that the factory would give; only a new delivery takes it.
unfoldable pub register_delivery : RegisterInput → String → ℕ → ℕ → Action DeliveryState
unfolding register_new suppress_duplicate existing_id
register_delivery input id now emitted m =
    register_with (existing_id m input.run_id) input id now emitted m

unfoldable pub require_delivery : String → Action DeliveryState
require_delivery id m = or_raise (Dict.get m.deliveries id) not_found m

-- `if (value) metadata.field = value`
abbrev pub when_truthy : Option String → Option String
when_truthy s = if truthy s then s else none

abbrev pub is_failure : DeliveryStatus → Bool
is_failure failed = true
is_failure timed_out = true
is_failure _ = false

abbrev pub delivery_duration : DeliveryState → ℕ → Option ℤ
delivery_duration d now = elim d.delivery_started_at [
  | none ↦ none
  | some started ↦
      if is_some d.delivered_at || is_failure d.status
      then some (difference (or_else d.delivered_at now) started)
      else none
]

abbrev pub ack_duration : Option ℕ → Option ℕ → Option ℤ
ack_duration none acked_at = none
ack_duration (some delivered_at) none = none
ack_duration (some delivered_at) (some acked_at) = some (difference acked_at delivered_at)

abbrev pub metadata_of : DeliveryState → Option FailureCode → ℕ → Metadata
metadata_of d code now = record {
  failure_code = code;
  attempt = d.attempt;
  max_retries = some d.max_retries;
  delivery_deadline = when_truthy d.delivery_deadline;
  ack_deadline = when_truthy d.ack_deadline;
  delivery_duration_ms = delivery_duration d now;
  ack_duration_ms = ack_duration d.delivered_at d.acked_at;
  channel = when_truthy d.channel;
}

-- The fields that every transition writes; a failure code stays where none is given.
abbrev pub moved : DeliveryState → DeliveryStatus → Option FailureCode → ℕ → DeliveryState
moved d target code now = record d {
  status = target;
  updated_at = now;
  failure_code = or_option code d.failure_code;
}

unfoldable pub transition :
    String
    → DeliveryStatus
    → (DeliveryState → DeliveryState)
    → Option FailureCode
    → ℕ
    → ℕ
    → Action DeliveryState
unfolding require_delivery emit_event
transition id target apply code now emitted = do
  d ← require_delivery id
  throw_if (not (transitions d.status target)) invalid_transition
  let d' = apply (moved d target code now)
  modify (save id d')
  modify (emit_event d' (status_to_event_kind target) (metadata_of d' code now) emitted)
  pure d'

abbrev pub unchanged : DeliveryState → DeliveryState
unchanged d = d

unfoldable pub queue_delivery : String → ℕ → ℕ → Action DeliveryState
queue_delivery id = transition id delivery_pending unchanged none

-- `if (value) field = value`
abbrev pub given : Option String → Option String → Option String
given value field = if truthy value then value else field

abbrev pub start_fields : Option String → DeliveryState → DeliveryState
start_fields channel d = record d {
  delivery_started_at = some d.updated_at;
  channel = given channel d.channel;
}

unfoldable pub start_delivery : String → Option String → ℕ → ℕ → Action DeliveryState
start_delivery id channel = transition id delivering (start_fields channel) none

abbrev pub delivered_fields : Option String → DeliveryState → DeliveryState
delivered_fields deadline d = record d {
  delivered_at = some d.updated_at;
  ack_deadline = given deadline d.ack_deadline;
}

unfoldable pub mark_delivered : String → Option String → ℕ → ℕ → Action DeliveryState
mark_delivered id deadline = transition id delivered (delivered_fields deadline) none

abbrev pub ack_fields : DeliveryState → DeliveryState
ack_fields d = record d {
  acknowledged = true;
  acked_at = some d.updated_at;
  completed_at = some d.updated_at;
}

unfoldable pub acknowledge_delivery : String → ℕ → ℕ → Action DeliveryState
acknowledge_delivery id = transition id acked ack_fields none

unfoldable pub fail_delivery : String → String → ℕ → ℕ → Action DeliveryState
fail_delivery id reason = transition id failed unchanged (some (resolve_failure_code reason))

abbrev pub exhausted_fields : ℕ → DeliveryState → DeliveryState
exhausted_fields attempt d = record d { attempt = attempt }

abbrev pub retry_fields : ℕ → DeliveryState → DeliveryState
retry_fields attempt d = record d { attempt = attempt; failure_code = none }

unfoldable pub retry_delivery : String → ℕ → ℕ → Action DeliveryState
unfolding require_delivery
retry_delivery id now emitted = do
  existing ← require_delivery id
  throw_if (not (is_failure existing.status)) invalid_retry
  let next : ℕ = existing.attempt + 1
  if ltb existing.max_retries next
      then transition id timed_out (exhausted_fields next) (some max_retries_exceeded) now emitted
      else transition id retrying (retry_fields next) none now emitted

abbrev pub timeout_fields : DeliveryState → DeliveryState
timeout_fields d = record d { completed_at = some d.updated_at }

unfoldable pub timeout_delivery : String → Option String → ℕ → ℕ → Action DeliveryState
timeout_delivery id reason =
    transition id timed_out timeout_fields
      (some (resolve_failure_code (or_else reason "delivery_timeout")))
