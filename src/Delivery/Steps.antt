-- ===== src/Delivery/Steps.antt =====
-- Each operation of the manager makes one of the four moves.
use a2a_broker.Prelude.{
  ℕ, ◌+◌, ◌≡◌, refl, ◌∙◌, String, true, Option, none, some, arith, ltb, ◌⊎◌, inl, inr, Option-cases,
  Bool-cases, false,
}
use a2a_broker.Prelude.Dict
use a2a_broker.Prelude.Exec.{ok, err}
use a2a_broker.Delivery.Types.{
  DeliveryState, DeliveryStatus, delivery_pending, delivering, delivered, acked, failed, retrying,
  timed_out, FailureCode, max_retries_exceeded, resolve_failure_code, transitions,
  status_to_event_kind,
}
use a2a_broker.Delivery.Manager.{
  Manager, RegisterInput, DeliveryError, not_found, invalid_transition, transition, moved, save,
  emit_event, metadata_of, register_delivery, register_new, suppress_duplicate, existing_id,
  require_delivery, retry_delivery, is_failure, unchanged, start_fields, delivered_fields,
  ack_fields, exhausted_fields, retry_fields, timeout_fields, queue_delivery, start_delivery,
  mark_delivered, acknowledge_delivery, fail_delivery, timeout_delivery,
}
use a2a_broker.Delivery.Moves.{
  IsConsistent, is_retrying, Operation, registers, queues, starts, delivers, acknowledges, fails,
  retries, times_out, step, Update, Move, stay, suppress, enter, advance,
}

-- Every delivery is stored under its own id.
abbrev pub AreNamed : Manager → Type 0
AreNamed m = Dict.Holds (λ k d. d.delivery_id ≡ k) m.deliveries

-- A transition either throws and changes nothing, or writes the moved delivery and its event.
unfoldable pub after_transition :
    String → DeliveryState → DeliveryStatus → Option FailureCode → ℕ → ℕ → Manager → Manager
after_transition id d target code now emitted m =
    emit_event d (status_to_event_kind target) (metadata_of d code now) emitted (save id d m)

module _ (id : String) (target : DeliveryStatus) (apply : DeliveryState → DeliveryState)
    (code : Option FailureCode) (now emitted : ℕ) where
  pub transition-cases :
      (m : Manager)
      → ((x : DeliveryError) × (transition id target apply code now emitted m ≡ (err x, m)))
        ⊎ ((d : DeliveryState) × (Dict.get m.deliveries id ≡ some d)
            × (transitions d.status target ≡ true)
            × (transition id target apply code now emitted m ≡ (
              ok (apply (moved d target code now)),
              after_transition id (apply (moved d target code now)) target code now emitted m,
            )))
  unfolding transition require_delivery after_transition
  transition-cases m = elim (Option-cases (Dict.get m.deliveries id)) [
    | inl missing ↦ inl (not_found, rw missing)
    | inr (d, found) ↦ elim (Bool-cases (transitions d.status target)) [
      | inl allowed ↦ inr (d, found, allowed, rw (found, allowed))
      | inr refused ↦ inl (invalid_transition, rw (found, refused))
    ]
  ]

  transition-Move :
      (o : Operation) (m : Manager)
      → AreNamed m
      → ((d : DeliveryState) → (apply (moved d target code now)).status ≡ target)
      → ((d : DeliveryState)
          → Dict.get m.deliveries id ≡ some d
          → transitions d.status target ≡ true
          → Update d (apply (moved d target code now)))
      → Move o m (transition id target apply code now emitted m).1
  unfolding after_transition emit_event
  transition-Move o m named reaches updates = elim (transition-cases m) [
    | inl (x, e) ↦ rw e (stay refl)
    | inr (d, found, allowed, e) ↦ rw e (
        let u : Update d (apply (moved d target code now)) = updates d found allowed in
        advance id d (apply (moved d target code now)) found u refl refl (record {
          make = _;
          appended = refl;
          carries = λ n. refl;
          about = λ n. u.same_id ∙ named id d found;
          announces = λ n. (rw (reaches d) refl, refl);
        }))
  ]

  -- A transition that starts no new attempt, and writes no id, run or limit.
  plain-Move :
      (o : Operation) (m : Manager)
      → AreNamed m
      → is_retrying target ≡ false
      → ((d : DeliveryState) → (apply (moved d target code now)).status ≡ target)
      → ((d : DeliveryState) → (apply (moved d target code now)).delivery_id ≡ d.delivery_id)
      → ((d : DeliveryState) → (apply (moved d target code now)).run_id ≡ d.run_id)
      → ((d : DeliveryState) → (apply (moved d target code now)).max_retries ≡ d.max_retries)
      → ((d : DeliveryState) → (apply (moved d target code now)).attempt ≡ d.attempt)
      → ((d : DeliveryState)
          → transitions d.status target ≡ true
          → IsConsistent d
          → IsConsistent (apply (moved d target code now)))
      → Move o m (transition id target apply code now emitted m).1
  plain-Move o m named other reaches ids runs limits attempts keeps =
      transition-Move o m named reaches (λ d found allowed. record {
        edge = rw (reaches d) allowed;
        same_id = ids d;
        same_run = runs d;
        same_max = limits d;
        tries = rw (reaches d, other, attempts d) (omega arith);
        keeps = keeps d allowed;
      })

register-Move :
    (input : RegisterInput) (id : String) (now emitted : ℕ) (m : Manager)
    → Move (registers input id) m (register_delivery input id now emitted m).1
unfolding register_delivery register_new suppress_duplicate emit_event
register-Move input id now emitted m = elim (Option-cases (existing_id m input.run_id)) [
  | inl new ↦ rw new (
      enter input id _ refl new refl refl refl (ground arith) refl refl (record {
        make = _;
        appended = refl;
        carries = λ n. refl;
        about = λ n. refl;
        announces = λ n. (refl, refl);
      }))
  | inr (k, known) ↦ elim (Option-cases (Dict.get m.deliveries k)) [
    | inl missing ↦ rw (known, missing) (stay refl)
    | inr (d, found) ↦ rw (known, found) (suppress input id k d refl known found refl)
  ]
]

retry-Move :
    (id : String) (now emitted : ℕ) (m : Manager)
    → AreNamed m
    → Move (retries id) m (retry_delivery id now emitted m).1
unfolding retry_delivery require_delivery
retry-Move id now emitted m named = elim (Option-cases (Dict.get m.deliveries id)) [
  | inl missing ↦ rw missing (stay refl)
  | inr (d, found) ↦ elim (Bool-cases (is_failure d.status)) [
    | inl failure ↦ elim (Bool-cases (ltb d.max_retries (d.attempt + 1))) [
      | inl over ↦
          rw (found, failure, over)
            (transition-Move id timed_out (exhausted_fields (d.attempt + 1))
              (some max_retries_exceeded) now emitted (retries id) m named (λ e. refl)
              (λ e held allowed.
                let same : d ≡ e = cc in
                record {
                  edge = allowed;
                  same_id = refl;
                  same_run = refl;
                  same_max = refl;
                  tries = ground (arith, same);
                  keeps = λ c. ground (arith, same, over);
                }))
      | inr within ↦
          rw (found, failure, within)
            (transition-Move id retrying (retry_fields (d.attempt + 1)) none now emitted
              (retries id) m named (λ e. refl)
              (λ e held allowed.
                let same : d ≡ e = cc in
                record {
                  edge = allowed;
                  same_id = refl;
                  same_run = refl;
                  same_max = refl;
                  tries = ground (arith, same);
                  keeps = λ c. ground (arith, same, within);
                }))
    ]
    | inr other ↦ rw (found, other) (stay refl)
  ]
]

pub step-Move :
    (m : Manager) (o : Operation) (now emitted : ℕ) → AreNamed m → Move o m (step m o now emitted)
unfolding step queue_delivery start_delivery mark_delivered acknowledge_delivery fail_delivery
    timeout_delivery
step-Move m (registers input id) now emitted named = register-Move input id now emitted m
step-Move m (retries id) now emitted named = retry-Move id now emitted m named
step-Move m (queues id) now emitted named =
    plain-Move id delivery_pending unchanged none now emitted (queues id) m named refl (λ d. refl)
      (λ d. refl) (λ d. refl) (λ d. refl) (λ d. refl) (λ d allowed c. ground arith)
step-Move m (starts id channel) now emitted named =
    plain-Move id delivering (start_fields channel) none now emitted (starts id channel) m named
      refl (λ d. refl) (λ d. refl) (λ d. refl) (λ d. refl) (λ d. refl) (λ d allowed c. ground arith)
step-Move m (delivers id deadline) now emitted named =
    plain-Move id delivered (delivered_fields deadline) none now emitted (delivers id deadline) m
      named refl (λ d. refl) (λ d. refl) (λ d. refl) (λ d. refl) (λ d. refl)
      (λ d allowed c. ground arith)
step-Move m (acknowledges id) now emitted named =
    plain-Move id acked ack_fields none now emitted (acknowledges id) m named refl (λ d. refl)
      (λ d. refl) (λ d. refl) (λ d. refl) (λ d. refl) (λ d allowed c. ground arith)
step-Move m (fails id reason) now emitted named =
    plain-Move id failed unchanged (some (resolve_failure_code reason)) now emitted
      (fails id reason) m named refl (λ d. refl) (λ d. refl) (λ d. refl) (λ d. refl) (λ d. refl)
      (λ d allowed c. ground arith)
step-Move m (times_out id reason) now emitted named =
    plain-Move id timed_out timeout_fields _ now emitted (times_out id reason) m named refl
      (λ d. refl) (λ d. refl) (λ d. refl) (λ d. refl) (λ d. refl) (λ d allowed c. ground arith)
