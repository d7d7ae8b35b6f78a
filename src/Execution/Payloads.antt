-- ===== src/Execution/Payloads.antt =====
-- How often a run gets its payload.
use a2a_broker.Prelude.{
  ℕ, ◌+◌, ◌≤◌, ◌≡◌, subst, String, Bool, false, not, ◌&&◌, ◌==◌, List, [], ◌∷◌, Option, none, some,
  arith, eq_iff, Bool-cases, inl, inr, if◌then◌else◌,
}
use a2a_broker.Prelude.Dict
use a2a_broker.Execution.Types.{RunState}
use a2a_broker.Execution.Manager.{Manager, new}
use a2a_broker.Execution.Moves.{
  Operation, Call, step, run, drawn, IsUnused, AreFresh, Move, stay, enter, advance, is_loading,
  Update,
}
use a2a_broker.Execution.Steps.{step-Move}

abbrev pub is_loading_in : Option RunState → Bool
is_loading_in none = false
is_loading_in (some r) = is_loading r.status

abbrev pub paid_in : Option RunState → ℕ
paid_in none = 0
paid_in (some r) = if r.payload_delivered then 1 else 0

-- 1 where the run comes to payload_delivered between two states of the manager.
abbrev pub loads : Option RunState → Option RunState → ℕ
loads before after = if is_loading_in after && not (is_loading_in before) then 1 else 0

abbrev pub payloads : String → Manager → List Call → ℕ
payloads k m [] = 0
payloads k m (c ∷ calls) =
    let m' = step m c.operation c.now c.emitted in
    loads (Dict.get m.runs k) (Dict.get m'.runs k) + payloads k m' calls

Update-paid :
    (r r' : RunState)
    → Update r r'
    → paid_in (some r) + loads (some r) (some r') ≤ paid_in (some r')
Update-paid r r' u = ground (arith, u.edge, u.loads, u.once)

Move-paid :
    (o : Operation) (m m' : Manager) (k : String)
    → Move o m m'
    → IsUnused m (drawn o)
    → paid_in (Dict.get m.runs k) + loads (Dict.get m.runs k) (Dict.get m'.runs k)
      ≤ paid_in (Dict.get m'.runs k)
Move-paid o m m' k (stay e) unused = rw e (ground arith)
Move-paid o m m' k (enter id x draws status same_id c written emits) unused =
    let free : Dict.get m.runs id ≡ none = subst (IsUnused m) draws unused in
    rw (written, Dict.get-set m.runs id k x) (ground (arith, eq_iff id k, free, status))
Move-paid o m m' k (advance j x x' found u written emits) unused = elim (Bool-cases (j == k)) [
  | inl same ↦
      let at : Dict.get m.runs k ≡ some x =
        subst (λ i. Dict.get m.runs i ≡ some x) ((eq_iff j k).0 same) found in
      rw (written, Dict.get-set_same m.runs j k x' same, at) (Update-paid x x' u)
  | inr other ↦ rw (written, Dict.get-set_other m.runs j k x' other) (ground arith)
]

run-paid :
    (m : Manager) (k : String) (calls : List Call)
    → AreFresh m calls
    → paid_in (Dict.get m.runs k) + payloads k m calls ≤ paid_in (Dict.get (run m calls).runs k)
unfolding run
run-paid m k [] fresh = omega arith
run-paid m k (c ∷ calls) fresh =
    let m' = step m c.operation c.now c.emitted in
    omega (
      arith,
      Move-paid c.operation m m' k (step-Move m c.operation c.now c.emitted) fresh.0,
      run-paid m' k calls fresh.1,
    )

-- Over any calls on a new manager whose factory gives ids that are not in use, a run comes to
-- payload_delivered at most once, however often `deliverPayload` is called, and whatever failures and
-- timeouts lie between.
pub run-one_payload :
    (max_events : Option ℕ) (calls : List Call) (k : String)
    → AreFresh (new max_events) calls
    → payloads k (new max_events) calls ≤ 1
run-one_payload max_events calls k fresh = ground (arith, run-paid (new max_events) k calls fresh)
