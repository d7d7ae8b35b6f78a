-- ===== src/Delivery/Sends.antt =====
-- How often a delivery is sent, against its retries.
use a2a_broker.Prelude.Dict.{Dict}
use a2a_broker.Prelude.{
  ℕ, ◌+◌, ◌-◌, ◌≤◌, max, min, ◌≡◌, subst, String, Bool, true, false, List, [], ◌∷◌, Option, none,
  some, arith, eq_iff, ◌==◌, ◌&&◌, if◌then◌else◌, Bool-cases, inl, inr, eq_refl,
}
use a2a_broker.Prelude.Dict
use a2a_broker.Prelude.Exec.{Result, ok, err}
use a2a_broker.Delivery.Types.{
  DeliveryState, DeliveryStatus, result_ready, delivery_pending, retrying, delivering,
}
use a2a_broker.Delivery.Manager.{
  Manager, new, DeliveryError, start_delivery, emit_event, start_fields, moved,
}
use a2a_broker.Delivery.Moves.{
  Operation, starts, Call, call, step, run, Move, stay, suppress, enter, advance, IsConsistent,
  IsFresh, AreFresh, Update, registers, queues, acknowledges, retries, delivers, times_out, fails,
}
use a2a_broker.Delivery.Steps.{step-Move, transition-cases, after_transition}
use a2a_broker.Delivery.Validity.{IsValid}
use a2a_broker.Delivery.Invariant.{
  new-IsValid, step-IsValid, run-deliveries-IsValid, IsValid-AreNamed,
}

abbrev pub is_waiting : DeliveryStatus → Bool
is_waiting result_ready = true
is_waiting delivery_pending = true
is_waiting retrying = true
is_waiting _ = false

-- How often a delivery can have been sent, as its attempts and its status tell.
abbrev pub used : DeliveryState → ℕ
used d = if is_waiting d.status then d.attempt - 1 else min d.attempt (max 1 d.max_retries)

abbrev pub used_in : Option DeliveryState → ℕ
used_in none = 0
used_in (some d) = used d

abbrev pub is_start_of : String → Operation → Bool
is_start_of k (starts id channel) = id == k
is_start_of k _ = false

abbrev pub is_ok : {A : Type 0} → Result DeliveryError A → Bool
is_ok (ok a) = true
is_ok (err e) = false

-- 1 for a `startDelivery` of the delivery that does not throw.
abbrev pub sent : String → Manager → Call → ℕ
sent k m c =
    if is_start_of k c.operation && is_ok (call c.operation c.now c.emitted m).0 then 1 else 0

abbrev pub sends : String → Manager → List Call → ℕ
sends k m [] = 0
sends k m (c ∷ calls) = sent k m c + sends k (step m c.operation c.now c.emitted) calls

Update-used : (d d' : DeliveryState) → Update d d' → IsConsistent d → used d ≤ used d'
Update-used d d' u c = ground (arith, u.edge, u.tries, u.same_max, c.bounded, c.tried)

set-used :
    (ds : Dict DeliveryState) (j k : String) (d d' : DeliveryState)
    → Dict.get ds j ≡ some d
    → used d ≤ used d'
    → used_in (Dict.get ds k) ≤ used_in (Dict.get (Dict.set ds j d') k)
set-used ds j k d d' found h = elim (Bool-cases (j == k)) [
  | inl same ↦
      let at : Dict.get ds k ≡ some d =
        subst (λ i. Dict.get ds i ≡ some d) ((eq_iff j k).0 same) found in
      rw (at, Dict.get-set_same ds j k d' same) h
  | inr other ↦ rw (Dict.get-set_other ds j k d' other) (omega arith)
]

Move-used :
    (o : Operation) (m m' : Manager) (k : String)
    → Move o m m'
    → IsFresh m o
    → IsValid m
    → used_in (Dict.get m.deliveries k) ≤ used_in (Dict.get m'.deliveries k)
Move-used o m m' k (stay e) fresh v = rw e (omega arith)
Move-used o m m' k (suppress input id j d asked known found e) fresh v =
    rw e
      (set-used m.deliveries j k d (record d { duplicate_suppressed = true }) found (omega arith))
Move-used o m m' k (advance j d d' found u written same emits) fresh v =
    rw written (set-used m.deliveries j k d d' found (Update-used d d' u (v.at_key j d found).1))
Move-used o m m' k (enter input id d asked first status same_id same_run c written indexed emits)
      fresh v =
    let given : IsFresh m (registers input id) = subst (IsFresh m) asked fresh in
    rw (written, Dict.get-set m.deliveries id k d) (ground (arith, eq_iff id k, given.1))

start-used :
    (m : Manager) (id : String) (channel : Option String) (now emitted : ℕ)
    → IsValid m
    → is_ok (start_delivery id channel now emitted m).0 ≡ true
    → used_in (Dict.get m.deliveries id) + 1
      ≤ used_in (Dict.get (start_delivery id channel now emitted m).1.deliveries id)
unfolding start_delivery after_transition emit_event
start-used m id channel now emitted v done =
    elim (transition-cases id delivering (start_fields channel) none now emitted m) [
      | inl (x, e) ↦ absurd (cc (done, e))
      | inr (d, found, allowed, e) ↦
          rw
            (
              e,
              found,
              Dict.get-set_same m.deliveries id id
                  (start_fields channel (moved d delivering none now)) (eq_refl id),
            )
            (let c : IsConsistent d = (v.at_key id d found).1 in
              ground (arith, c.bounded, c.tried, allowed))
    ]

sent-used :
    (m : Manager) (k : String) (o : Operation) (now emitted : ℕ)
    → IsValid m
    → is_start_of k o && is_ok (call o now emitted m).0 ≡ true
    → used_in (Dict.get m.deliveries k) + 1 ≤ used_in (Dict.get (step m o now emitted).deliveries k)
unfolding step call
sent-used m k (starts id channel) now emitted v done = elim (Bool-cases (id == k)) [
  | inl same ↦
      subst
        (λ i.
          used_in (Dict.get m.deliveries i) + 1
          ≤ used_in (Dict.get (start_delivery id channel now emitted m).1.deliveries i))
        ((eq_iff id k).0 same)
        (start-used m id channel now emitted v
          (subst (λ b. b && is_ok (start_delivery id channel now emitted m).0 ≡ true) same done))
  | inr other ↦ absurd (ground (arith, other, done))
]
sent-used m k (registers input id) now emitted v done = cc
sent-used m k (queues id) now emitted v done = cc
sent-used m k (acknowledges id) now emitted v done = cc
sent-used m k (retries id) now emitted v done = cc
sent-used m k (delivers id deadline) now emitted v done = cc
sent-used m k (times_out id reason) now emitted v done = cc
sent-used m k (fails id reason) now emitted v done = cc

step-used :
    (m : Manager) (k : String) (c : Call)
    → IsFresh m c.operation
    → IsValid m
    → used_in (Dict.get m.deliveries k) + sent k m c
      ≤ used_in (Dict.get (step m c.operation c.now c.emitted).deliveries k)
step-used m k c fresh v =
    elim (Bool-cases (is_start_of k c.operation && is_ok (call c.operation c.now c.emitted m).0)) [
      | inl done ↦ rw done (sent-used m k c.operation c.now c.emitted v done)
      | inr not_done ↦ rw not_done (
          omega (
            arith,
            Move-used c.operation m (step m c.operation c.now c.emitted) k
                (step-Move m c.operation c.now c.emitted (IsValid-AreNamed m v)) fresh v,
          ))
    ]

run-used :
    (m : Manager) (k : String) (calls : List Call)
    → AreFresh m calls
    → IsValid m
    → used_in (Dict.get m.deliveries k) + sends k m calls
      ≤ used_in (Dict.get (run m calls).deliveries k)
unfolding run
run-used m k [] fresh v = omega arith
run-used m k (c ∷ calls) fresh v = omega (
  arith,
  step-used m k c fresh.0 v,
  run-used (step m c.operation c.now c.emitted) k calls fresh.1 (step-IsValid m c fresh.0 v),
)

-- Of any calls on a new manager whose factory gives ids that are not empty and not in use, at most
-- max(1, maxRetries) are a `startDelivery` of one delivery that does not throw, however its attempts
-- fail, time out and are retried.
pub run-sends_bounded :
    (max_events default_max_retries : Option ℕ) (calls : List Call) (k : String) (d : DeliveryState)
    → AreFresh (new max_events default_max_retries) calls
    → Dict.get (run (new max_events default_max_retries) calls).deliveries k ≡ some d
    → sends k (new max_events default_max_retries) calls ≤ max 1 d.max_retries
run-sends_bounded max_events default_max_retries calls k d fresh found =
    let m = new max_events default_max_retries in
    let total : used_in (Dict.get m.deliveries k) + sends k m calls ≤ used_in (some d) =
      subst (λ o. used_in (Dict.get m.deliveries k) + sends k m calls ≤ used_in o) found
        (run-used m k calls fresh (new-IsValid max_events default_max_retries)) in
    let c : IsConsistent d =
      ((run-deliveries-IsValid max_events default_max_retries calls fresh).at_key k d found).1 in
    ground (arith, total, c.bounded)
