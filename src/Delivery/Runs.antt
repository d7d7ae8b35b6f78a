-- ===== src/Delivery/Runs.antt =====
-- One delivery for a run, and none that changes once it is acknowledged.
use a2a_broker.Prelude.{
  ℕ, ◌≡◌, refl, subst, String, Bool, true, List, [], ◌∷◌, Option, some, arith, eq_iff, ◌==◌,
  Bool-cases, inl, inr,
}
use a2a_broker.Prelude.Dict
use a2a_broker.Prelude.Exec.{ok}
use a2a_broker.Delivery.Types.{DeliveryState, transitions}
use a2a_broker.Delivery.Manager.{
  Manager, RegisterInput, existing_id, register_delivery, suppress_duplicate,
}
use a2a_broker.Delivery.Moves.{
  Operation, registers, Call, step, run, Move, stay, suppress, enter, advance, IsFresh, AreFresh,
  is_acked,
}
use a2a_broker.Delivery.Steps.{step-Move}
use a2a_broker.Delivery.Validity.{IsValid}
use a2a_broker.Delivery.Invariant.{step-IsValid, IsValid-AreNamed}

-- In a manager in order, registering a run that has a delivery returns that delivery, marked as asked
-- for again: it keeps its status and its other fields, nothing is added to the manager, and no event is
-- emitted.
pub register_delivery-again :
    (m : Manager) (k : String) (d : DeliveryState) (input : RegisterInput) (id : String)
    (now emitted : ℕ)
    → IsValid m
    → Dict.get m.deliveries k ≡ some d
    → input.run_id ≡ d.run_id
    → let again : DeliveryState = record d { duplicate_suppressed = true } in
      register_delivery input id now emitted m
      ≡ (ok again, record m { deliveries = Dict.set m.deliveries k again })
unfolding register_delivery suppress_duplicate
register_delivery-again m k d input id now emitted v found same =
    let known : Dict.get m.run_index input.run_id ≡ some k = rw same (v.indexed k d found) in
    let existing : existing_id m input.run_id ≡ some k =
      unfold existing_id in
      ground (arith, known, eq_iff k "", (v.points input.run_id k known).named) in
    rw (existing, found) refl

-- The delivery is as it was, but for the mark that its run was registered again.
abbrev pub IsSettled : DeliveryState → Option DeliveryState → Type 0
IsSettled d o = (again : Bool) × (o ≡ some (record d { duplicate_suppressed = again }))

Move-IsSettled :
    (o : Operation) (m m' : Manager) (k : String) (d : DeliveryState)
    → Move o m m'
    → IsFresh m o
    → is_acked d.status ≡ true
    → Dict.get m.deliveries k ≡ some d
    → IsSettled d (Dict.get m'.deliveries k)
Move-IsSettled o m m' k d (stay e) fresh done held = (d.duplicate_suppressed, rw e held)
Move-IsSettled o m m' k d
      (enter input id x asked first status same_id same_run c written indexed emits) fresh done
      held =
    let given : IsFresh m (registers input id) = subst (IsFresh m) asked fresh in
    (
      d.duplicate_suppressed,
      rw (written, Dict.get-set m.deliveries id k x) (ground (arith, eq_iff id k, given.1, held)),
    )
Move-IsSettled o m m' k d (suppress input id j x asked known found e) fresh done held =
    elim (Bool-cases (j == k)) [
      | inl same ↦
          let is : x ≡ d = cc ((eq_iff j k).0 same, found, held) in
          (
            true,
            rw
                (
                  e,
                  Dict.get-set_same m.deliveries j k (record x { duplicate_suppressed = true })
                      same,
                )
                (subst
                  (λ y.
                    some (record x { duplicate_suppressed = true })
                    ≡ some (record y { duplicate_suppressed = true }))
                  is refl),
          )
      | inr other ↦ (
        d.duplicate_suppressed,
        rw (e, Dict.get-set_other m.deliveries j k (record x { duplicate_suppressed = true }) other)
            held,
      )
    ]
Move-IsSettled o m m' k d (advance j x x' found u written same_index emits) fresh done held =
    elim (Bool-cases (j == k)) [
      | inl same ↦
          let is : x ≡ d = cc ((eq_iff j k).0 same, found, held) in
          absurd
            (ground (arith, done, subst (λ y. transitions y.status x'.status ≡ true) is u.edge))
      | inr other ↦
          (d.duplicate_suppressed, rw (written, Dict.get-set_other m.deliveries j k x' other) held)
    ]

-- An acknowledged delivery stays acknowledged, with all its fields, whatever is called later on a manager
-- in order: only the mark that its run was registered again may change. The factory's ids are not
-- empty and not in use.
pub run-acked_final :
    (m : Manager) (calls : List Call) (k : String) (d : DeliveryState)
    → IsValid m
    → AreFresh m calls
    → is_acked d.status ≡ true
    → Dict.get m.deliveries k ≡ some d
    → IsSettled d (Dict.get (run m calls).deliveries k)
unfolding run
run-acked_final m [] k d v fresh done held = (d.duplicate_suppressed, held)
run-acked_final m (c ∷ calls) k d v fresh done held =
    let m' = step m c.operation c.now c.emitted in
    let (again, now) =
      Move-IsSettled c.operation m m' k d
        (step-Move m c.operation c.now c.emitted (IsValid-AreNamed m v)) fresh.0 done held in
    let (last, end) =
      run-acked_final m' calls k (record d { duplicate_suppressed = again })
        (step-IsValid m c fresh.0 v) fresh.1 done now in
    (last, end)
