-- ===== src/Delivery/Deadlines.antt =====
-- What the searches for late deliveries find.
use a2a_broker.Prelude.{
  ℕ, ◌≡◌, Bool, true, String, Option, some, map, filter, filter-Memᴰ, ◌⊎◌, inl, arith, inr, or_else,
  eq_refl, refl,
}
use a2a_broker.Prelude.Dict
use a2a_broker.Prelude.Exec.{ok}
use mathlib.Core.List.{Memᴰ}
use mathlib.Core.List.Memᴰ.{of_map}
use a2a_broker.Delivery.Types.{
  DeliveryState, timed_out, transitions, FailureCode, resolve_failure_code,
}
use a2a_broker.Delivery.Manager.{
  Manager, timeout_delivery, emit_event, transition, require_delivery, timeout_fields, moved,
}
use a2a_broker.Delivery.Queries.{is_late, is_unacked, find_delivery_timeouts, find_ack_timeouts}
use a2a_broker.Delivery.Validity.{IsValid}

-- What a search over the deliveries finds, by a test.
found-at :
    (test : DeliveryState → Bool) (m : Manager) (id : String)
    → IsValid m
    → Memᴰ id (map (λ d. d.delivery_id) (filter test (Dict.values m.deliveries)))
    → (d : DeliveryState) × (Dict.get m.deliveries id ≡ some d) × (test d ≡ true)
found-at test m id v h =
    let (d, member, same) =
      of_map (λ (d : DeliveryState). d.delivery_id) (filter test (Dict.values m.deliveries)) h in
    let (among, passed) = filter-Memᴰ test d (Dict.values m.deliveries) member in
    let (k, held) = Dict.values-get m.deliveries d v.unique among in
    (d, cc (held, (v.at_key k d held).0, same), passed)

-- A late delivery is sent or waits to be, or is delivered: from there it can time out.
times-out :
    (m : Manager) (id : String) (reason : Option String) (d : DeliveryState) (now emitted : ℕ)
    → Dict.get m.deliveries id ≡ some d
    → transitions d.status timed_out ≡ true
    → (e : DeliveryState) × ((timeout_delivery id reason now emitted m).0 ≡ ok e)
      × (e.status ≡ timed_out)
      × (Dict.get (timeout_delivery id reason now emitted m).1.deliveries id ≡ some e)
unfolding timeout_delivery transition require_delivery emit_event
times-out m id reason d now emitted found allowed =
    let code : Option FailureCode =
      some (resolve_failure_code (or_else reason "delivery_timeout")) in
    (
      timeout_fields (moved d timed_out code now),
      rw (found, allowed) refl,
      refl,
      rw (found, allowed)
          (Dict.get-set_same m.deliveries id id (timeout_fields (moved d timed_out code now))
            (eq_refl id)),
    )

-- In a manager in order, `timeoutDelivery` succeeds for every id that one of the two searches for late
-- deliveries gives, with any reason: it returns that delivery, timed out, and stores it.
pub find_timeouts-succeed :
    (parse_date : String → Option ℕ) (m : Manager) (id : String) (reason : Option String)
    (searched now emitted : ℕ)
    → IsValid m
    → Memᴰ id (find_delivery_timeouts parse_date m searched)
      ⊎ Memᴰ id (find_ack_timeouts parse_date m searched)
    → (e : DeliveryState) × ((timeout_delivery id reason now emitted m).0 ≡ ok e)
      × (e.status ≡ timed_out)
      × (Dict.get (timeout_delivery id reason now emitted m).1.deliveries id ≡ some e)
unfolding find_delivery_timeouts find_ack_timeouts
find_timeouts-succeed parse_date m id reason searched now emitted v (inl h) =
    let (d, held, late) = found-at (is_late parse_date searched) m id v h in
    times-out m id reason d now emitted held (ground (arith, late))
find_timeouts-succeed parse_date m id reason searched now emitted v (inr h) =
    let (d, held, late) = found-at (is_unacked parse_date searched) m id v h in
    times-out m id reason d now emitted held (ground (arith, late))
