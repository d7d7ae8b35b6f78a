-- ===== src/Execution/Finality.antt =====
-- Where a run ends, and where it gets stuck.
use a2a_broker.Prelude.{
  ℕ, Option, ◌≡◌, refl, subst, String, Bool, true, false, ◌==◌, List, [], ◌∷◌, none, some, arith,
  eq_iff, Bool-cases, inl, inr, sym,
}
use a2a_broker.Prelude.Dict
use a2a_broker.Execution.Types.{
  RunState, ExecutionStatus, session_ready, result_reported, failed, timeout, cancelled,
  transitions, running, ResultArtifact,
}
use a2a_broker.Prelude.Exec.{ok, err}
use a2a_broker.Execution.Manager.{
  Manager, deliver_payload, start_running, report_result, transition, require_run,
  invalid_transition,
}
use a2a_broker.Execution.Moves.{
  Operation, Call, step, run, drawn, IsUnused, AreFresh, Move, stay, enter, advance, is_loading,
  IsConsistent,
}
use a2a_broker.Execution.Steps.{step-Move}
use a2a_broker.Execution.Invariant.{IsValid, step-IsValid}

-- What a property of a stored run needs, to outlast any calls: it outlasts each move of that run.
module _ (P : RunState → Type 0)
    (moves : (r r' : RunState)
      → IsConsistent r
      → IsConsistent r'
      → transitions r.status r'.status ≡ true
      → (r.payload_delivered ≡ true → r'.payload_delivered ≡ true)
      → (is_loading r'.status ≡ true → (r.payload_delivered ≡ false))
      → P r
      → P r') where
  lasts-Move :
      (o : Operation) (m m' : Manager) (k : String) (r : RunState)
      → Move o m m'
      → IsUnused m (drawn o)
      → IsValid m
      → Dict.get m.runs k ≡ some r
      → P r
      → (s : RunState) × (Dict.get m'.runs k ≡ some s) × P s
  lasts-Move o m m' k r (stay e) unused v held p = (r, rw e held, p)
  lasts-Move o m m' k r (enter id x draws status same_id c written emits) unused v held p =
      let free : Dict.get m.runs id ≡ none = subst (IsUnused m) draws unused in
      (r, rw (written, Dict.get-set m.runs id k x) (ground (arith, eq_iff id k, free, held)), p)
  lasts-Move o m m' k r (advance j x x' found u written emits) unused v held p =
      elim (Bool-cases (j == k)) [
        | inl same ↦
            let is : x ≡ r = cc ((eq_iff j k).0 same, found, held) in
            (
              x',
              rw (written, Dict.get-set_same m.runs j k x' same) refl,
              moves x x' (v.at_key j x found).1 (u.keeps (v.at_key j x found).1) u.edge u.loads
                  (λ h. (u.once h).0) (rw is p),
            )
        | inr other ↦ (r, rw (written, Dict.get-set_other m.runs j k x' other) held, p)
      ]

  pub lasts :
      (m : Manager) (calls : List Call) (k : String) (r : RunState)
      → IsValid m
      → AreFresh m calls
      → Dict.get m.runs k ≡ some r
      → P r
      → (s : RunState) × (Dict.get (run m calls).runs k ≡ some s) × P s
  unfolding run
  lasts m [] k r v fresh held p = (r, held, p)
  lasts m (c ∷ calls) k r v fresh held p =
      let (s, now, q) =
        lasts-Move c.operation m (step m c.operation c.now c.emitted) k r
          (step-Move m c.operation c.now c.emitted) fresh.0 v held p in
      lasts (step m c.operation c.now c.emitted) calls k s (step-IsValid m c v) fresh.1 now q

abbrev pub is_final : ExecutionStatus → Bool
is_final result_reported = true
is_final cancelled = true
is_final _ = false

-- A run that has reported its result, or is cancelled, never changes again, whatever is called later on a
-- manager in order whose factory gives ids that are not in use.
pub run-result_final :
    (m : Manager) (calls : List Call) (k : String) (r : RunState)
    → IsValid m
    → AreFresh m calls
    → is_final r.status ≡ true
    → Dict.get m.runs k ≡ some r
    → Dict.get (run m calls).runs k ≡ some r
run-result_final m calls k r v fresh final held =
    let (s, now, same) =
      lasts (λ s. s ≡ r)
        (λ x x' c c' edge loads once is.
          absurd (ground (arith, edge, subst (λ y. is_final y.status ≡ true) (sym is) final)))
        m calls k r v fresh held refl in
    cc (now, same)

-- The statuses of a run that is open again after its payload was delivered.
abbrev pub is_stuck : ExecutionStatus → Bool
is_stuck session_ready = true
is_stuck failed = true
is_stuck timeout = true
is_stuck cancelled = true
is_stuck _ = false

-- What a stuck run answers: `deliverPayload` returns it and changes nothing, and `startRunning` and
-- `reportResult` throw and change nothing.
pub record CannotRun (m : Manager) (k : String) (r : RunState) : Type 0 where
  pub stored : Dict.get m.runs k ≡ some r
  pub status : is_stuck r.status ≡ true
  pub paid : r.payload_delivered ≡ true
  pub delivers :
      (deadline : Option String) (now emitted : ℕ)
      → deliver_payload k deadline now emitted m ≡ (ok r, m)
  pub starts : (now emitted : ℕ) → start_running k now emitted m ≡ (err invalid_transition, m)
  pub reports :
      (result : ResultArtifact) (now emitted : ℕ)
      → report_result k result now emitted m ≡ (err invalid_transition, m)

stuck-CannotRun :
    (m : Manager) (k : String) (r : RunState)
    → Dict.get m.runs k ≡ some r
    → is_stuck r.status ≡ true
    → r.payload_delivered ≡ true
    → CannotRun m k r
unfolding deliver_payload start_running report_result transition require_run
stuck-CannotRun m k r stored stuck paid =
    let to_running : transitions r.status running ≡ false = ground (arith, stuck) in
    let to_reported : transitions r.status result_reported ≡ false = ground (arith, stuck) in
    record {
      stored = stored;
      status = stuck;
      paid = paid;
      delivers = λ deadline now emitted. rw (stored, paid) refl;
      starts = λ now emitted. rw (stored, to_running) refl;
      reports = λ result now emitted. rw (stored, to_reported) refl;
    }

-- A run that had its payload and whose session is ready again, after a failure or a timeout, never runs
-- or reports a result, whatever is called later on a manager in order whose factory gives ids that are
-- not in use: at any later time `deliverPayload` returns the stored run and changes nothing, and
-- `startRunning` and `reportResult` throw INVALID_TRANSITION and change nothing.
pub run-ready_again_stuck :
    (m : Manager) (calls : List Call) (k : String) (r : RunState)
    → IsValid m
    → AreFresh m calls
    → r.status ≡ session_ready
    → r.payload_delivered ≡ true
    → Dict.get m.runs k ≡ some r
    → (s : RunState) × CannotRun (run m calls) k s
run-ready_again_stuck m calls k r v fresh ready paid held =
    let (s, now, both) =
      lasts (λ s. (is_stuck s.status ≡ true) × (s.payload_delivered ≡ true))
        (λ x x' c c' edge loads once p. ground (arith, c'.waking, edge, loads, once, p.0, p.1)) m
        calls k r v fresh held (rw ready refl, paid) in
    (s, stuck-CannotRun (run m calls) k s now both.0 both.1)
