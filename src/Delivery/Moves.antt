-- ===== src/Delivery/Moves.antt =====
-- Every call on the manager makes one of four moves: it leaves the manager alone, marks a delivery as
-- asked for again, enters a new delivery, or advances one along an edge of `DELIVERY_TRANSITIONS`.
use a2a_broker.Prelude.{
  ℕ, ◌+◌, ◌≤◌, max, ◌≡◌, ◌≢◌, String, Bool, true, false, List, [], ◌∷◌, Option, none, some, is_some,
  if◌then◌else◌,
}
use a2a_broker.Prelude.Dict
use a2a_broker.EventBuffer.Announce
use a2a_broker.Delivery.Types.{
  DeliveryState, DeliveryEvent, DeliveryStatus, result_ready, delivering, delivered, acked, failed,
  timed_out, transitions, status_to_event_kind, retrying,
}
use a2a_broker.Delivery.Manager.{
  Manager, Action, RegisterInput, register_delivery, queue_delivery, start_delivery, mark_delivered,
  acknowledge_delivery, fail_delivery, retry_delivery, timeout_delivery, existing_id,
}

pub data Operation : Type 0 where
  registers : RegisterInput → String → Operation
  queues acknowledges retries : String → Operation
  starts delivers times_out : String → Option String → Operation
  fails : String → String → Operation

-- One call, with the two readings of the clock that it may take.
unfoldable pub call : Operation → ℕ → ℕ → Action DeliveryState
unfolding register_delivery queue_delivery start_delivery mark_delivered acknowledge_delivery
    fail_delivery retry_delivery timeout_delivery
call (registers input id) = register_delivery input id
call (queues id) = queue_delivery id
call (starts id channel) = start_delivery id channel
call (delivers id deadline) = mark_delivered id deadline
call (acknowledges id) = acknowledge_delivery id
call (fails id reason) = fail_delivery id reason
call (retries id) = retry_delivery id
call (times_out id reason) = timeout_delivery id reason

-- The manager after a call. An error leaves what the call wrote before it.
unfoldable pub step : Manager → Operation → ℕ → ℕ → Manager
unfolding call
step m o now emitted = (call o now emitted m).1

pub record Call : Type 0 where
  pub operation : Operation
  pub now : ℕ
  pub emitted : ℕ

unfoldable pub run : Manager → List Call → Manager
unfolding step
run m [] = m
run m (c ∷ calls) = run (step m c.operation c.now c.emitted) calls

-- An id from the factory is not empty and in use for no delivery, as an id drawn at random.
abbrev pub IsFresh : Manager → Operation → Type 0
IsFresh m (registers input id) = (id ≢ "") × (Dict.get m.deliveries id ≡ none)
IsFresh m _ = Unit

abbrev pub AreFresh : Manager → List Call → Type 0
AreFresh m [] = Unit
AreFresh m (c ∷ calls) = IsFresh m c.operation × AreFresh (step m c.operation c.now c.emitted) calls

-- Which optional fields each status needs.
abbrev pub has_started : DeliveryStatus → Bool
has_started delivering = true
has_started delivered = true
has_started acked = true
has_started _ = false

abbrev pub has_arrived : DeliveryStatus → Bool
has_arrived delivered = true
has_arrived acked = true
has_arrived _ = false

abbrev pub needs_code : DeliveryStatus → Bool
needs_code failed = true
needs_code timed_out = true
needs_code _ = false

abbrev pub is_acked : DeliveryStatus → Bool
is_acked acked = true
is_acked _ = false

abbrev pub is_timed_out : DeliveryStatus → Bool
is_timed_out timed_out = true
is_timed_out _ = false

abbrev pub is_retrying : DeliveryStatus → Bool
is_retrying retrying = true
is_retrying _ = false

pub record IsConsistent (d : DeliveryState) : Type 0 where
  pub started : has_started d.status ≡ true → is_some d.delivery_started_at ≡ true
  pub arrived : has_arrived d.status ≡ true → is_some d.delivered_at ≡ true
  pub coded : needs_code d.status ≡ true → is_some d.failure_code ≡ true
  pub acknowledges : d.acknowledged ≡ is_acked d.status
  pub timed :
      is_acked d.status ≡ true → (is_some d.acked_at ≡ true) × (is_some d.completed_at ≡ true)
  pub tried : 1 ≤ d.attempt
  pub bounded : d.attempt ≤ max 1 d.max_retries + (if is_timed_out d.status then 1 else 0)

pub record Update (d d' : DeliveryState) : Type 0 where
  pub edge : transitions d.status d'.status ≡ true
  pub same_id : d'.delivery_id ≡ d.delivery_id
  pub same_run : d'.run_id ≡ d.run_id
  pub same_max : d'.max_retries ≡ d.max_retries
  pub tries : d.attempt + (if is_retrying d'.status then 1 else 0) ≤ d'.attempt
  pub keeps : IsConsistent d → IsConsistent d'

-- The event of a move names the delivery's new status.
abbrev pub Names : DeliveryState → DeliveryEvent → Type 0
Names d e = (e.kind ≡ status_to_event_kind d.status) × (e.run_id ≡ d.run_id)

abbrev pub Emits : String → DeliveryState → Manager → Manager → Type 0
Emits k d m m' = Announce.Emits (λ e. e.id) (λ e. e.delivery_id) Names k d m.buffer m'.buffer

pub data Move (o : Operation) (m m' : Manager) : Type 0 where
  stay : m' ≡ m → Move o m m'
  suppress :
      (input : RegisterInput) (id k : String) (d : DeliveryState)
      → o ≡ registers input id
      → existing_id m input.run_id ≡ some k
      → Dict.get m.deliveries k ≡ some d
      → m' ≡ record m {
        deliveries = Dict.set m.deliveries k (record d { duplicate_suppressed = true });
      }
      → Move o m m'
  enter :
      (input : RegisterInput) (id : String) (d : DeliveryState)
      → o ≡ registers input id
      → existing_id m input.run_id ≡ none
      → d.status ≡ result_ready
      → d.delivery_id ≡ id
      → d.run_id ≡ input.run_id
      → IsConsistent d
      → m'.deliveries ≡ Dict.set m.deliveries id d
      → m'.run_index ≡ Dict.set m.run_index input.run_id id
      → Emits id d m m'
      → Move o m m'
  advance :
      (k : String) (d d' : DeliveryState)
      → Dict.get m.deliveries k ≡ some d
      → Update d d'
      → m'.deliveries ≡ Dict.set m.deliveries k d'
      → m'.run_index ≡ m.run_index
      → Emits k d' m m'
      → Move o m m'
