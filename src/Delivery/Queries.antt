-- ===== src/Delivery/Queries.antt =====
-- src/core/delivery-lifecycle.ts: what the manager answers and does not change.
use a2a_broker.Prelude.{
  has_text, is_past, passes, ℕ, String, Bool, true, false, List, Option, none, some, truthy, ltb,
  filter, map, ◌==◌, ◌&&◌, if◌then◌else◌,
}
use a2a_broker.Prelude.Dict
use a2a_broker.EventBuffer
use a2a_broker.Delivery.Types.{
  DeliveryState, DeliveryStatus, delivery_pending, delivering, delivered, result_ready,
  DeliveryEvent, CloseoutKind, CloseoutSummary,
}
use a2a_broker.Delivery.Manager.{Manager}

unfoldable pub get_deliveries_for_session : Manager → String → List DeliveryState
get_deliveries_for_session m key =
    filter (λ d. d.originator_session_key == key) (Dict.values m.deliveries)

unfoldable pub get_deliveries_for_task : Manager → String → List DeliveryState
get_deliveries_for_task m task =
    filter (λ d. has_text task d.parent_task_id) (Dict.values m.deliveries)

abbrev pub is_sending : DeliveryStatus → Bool
is_sending delivery_pending = true
is_sending delivering = true
is_sending _ = false

abbrev pub is_delivered : DeliveryStatus → Bool
is_delivered delivered = true
is_delivered _ = false

abbrev pub is_late : (String → Option ℕ) → ℕ → DeliveryState → Bool
is_late parse_date now d =
    truthy d.delivery_deadline && is_sending d.status && is_past parse_date d.delivery_deadline now

abbrev pub is_unacked : (String → Option ℕ) → ℕ → DeliveryState → Bool
is_unacked parse_date now d =
    truthy d.ack_deadline && is_delivered d.status && is_past parse_date d.ack_deadline now

-- A search takes one reading of the clock, where the code reads it again for each record.
unfoldable pub find_delivery_timeouts : (String → Option ℕ) → Manager → ℕ → List String
find_delivery_timeouts parse_date m now =
    map (λ d. d.delivery_id) (filter (is_late parse_date now) (Dict.values m.deliveries))

unfoldable pub find_ack_timeouts : (String → Option ℕ) → Manager → ℕ → List String
find_ack_timeouts parse_date m now =
    map (λ d. d.delivery_id) (filter (is_unacked parse_date now) (Dict.values m.deliveries))

abbrev pub closeout_kind : DeliveryStatus → ℕ → ℕ → CloseoutKind
closeout_kind DeliveryStatus.acked attempt max_retries = CloseoutKind.acked
closeout_kind delivered attempt max_retries = CloseoutKind.delivered_unacked
closeout_kind DeliveryStatus.timed_out attempt max_retries =
    if ltb max_retries attempt then CloseoutKind.max_retries_exceeded else CloseoutKind.timed_out
closeout_kind DeliveryStatus.failed attempt max_retries = CloseoutKind.failed
closeout_kind _ attempt max_retries = CloseoutKind.pending

abbrev pub is_ready : DeliveryStatus → Bool
is_ready result_ready = true
is_ready _ = false

unfoldable pub to_closeout_summary : DeliveryState → CloseoutSummary
to_closeout_summary d = record {
  delivery_id = d.delivery_id;
  run_id = d.run_id;
  originator_session_key = d.originator_session_key;
  originator_node_id = d.originator_node_id;
  kind =
      if d.duplicate_suppressed && is_ready d.status
      then CloseoutKind.duplicate_suppressed
      else closeout_kind d.status d.attempt d.max_retries;
  attempts = d.attempt;
  artifact = some d.artifact;
  failure_code = d.failure_code;
  channel = d.channel;
  updated_at = d.updated_at;
}

unfoldable pub closeout_delivery : Manager → String → Option CloseoutSummary
unfolding to_closeout_summary
closeout_delivery m id = elim (Dict.get m.deliveries id) [
  | none ↦ none
  | some d ↦ some (to_closeout_summary d)
]

unfoldable pub closeout_task : Manager → String → List CloseoutSummary
unfolding to_closeout_summary get_deliveries_for_task
closeout_task m task = map (λ d. to_closeout_summary d) (get_deliveries_for_task m task)

unfoldable pub closeout_session : Manager → String → List CloseoutSummary
unfolding to_closeout_summary get_deliveries_for_session
closeout_session m key = map (λ d. to_closeout_summary d) (get_deliveries_for_session m key)

pub record SubscribeOptions : Type 0 where
  pub after_id : Option ℕ
  pub delivery_id : Option String
  pub run_id : Option String
  pub originator_session_key : Option String
  pub originator_node_id : Option String
  pub parent_task_id : Option String
  pub limit : Option ℕ

abbrev pub matches : SubscribeOptions → DeliveryEvent → Bool
matches options e =
    passes options.delivery_id (some e.delivery_id)
    && passes options.run_id (some e.run_id)
    && passes options.originator_session_key (some e.originator_session_key)
    && passes options.originator_node_id (some e.originator_node_id)
    && passes options.parent_task_id e.parent_task_id

unfoldable pub subscribe : Manager → SubscribeOptions → List DeliveryEvent
subscribe m options =
    EventBuffer.subscribe (λ e. e.id) m.buffer options.after_id options.limit (matches options)
