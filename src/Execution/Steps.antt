-- ===== src/Execution/Steps.antt =====
-- Each operation of the manager makes one of the three moves.
use a2a_broker.Prelude.{
  ◌∙◌, ℕ, ◌+◌, ◌≤◌, ◌≡◌, refl, String, true, Option, some, arith, ◌⊎◌, inl, inr, Option-cases,
  Bool-cases, false,
}
use a2a_broker.Prelude.Dict
use a2a_broker.Prelude.Exec.{ok, err}
use a2a_broker.Execution.Types.{
  RunState, ExecutionStatus, session_ready, payload_delivered, running, result_reported, failed,
  timeout, cancelled, execution_timeout, cancelled_by_operator, resolve_failure_code, transitions,
  status_to_event_kind, FailureCode,
}
use a2a_broker.Execution.Manager.{
  end_run, Manager, RequestInput, ExecutionError, not_found, invalid_transition, transition, moved,
  save, emit_event, metadata_of, Extra, no_extra, begin_run, request_execution, require_run,
  retry_execution, may_retry, request_of, ready_fields, payload_fields, running_fields,
  result_fields, end_fields, mark_ready, deliver_payload, start_running, report_result,
  fail_execution, timeout_execution, cancel_execution,
}
use a2a_broker.Execution.Moves.{
  IsConsistent, is_loading, is_broken, Operation, requests, readies, delivers, starts, times_out,
  cancels, reports, fails, retries, step, drawn, Update, Move, stay, enter, advance,
}

-- A transition either throws and changes nothing, or writes the moved run and its event.
unfoldable pub after_transition :
    String → RunState → ExecutionStatus → Extra → ℕ → Manager → Manager
after_transition id r target extra emitted m =
    emit_event id r (status_to_event_kind target) (metadata_of r extra) emitted (save id r m)

module _ (id : String) (target : ExecutionStatus) (apply : RunState → RunState) (extra : Extra)
    (now emitted : ℕ) where
  pub transition-cases :
      (m : Manager)
      → ((x : ExecutionError) × (transition id target apply extra now emitted m ≡ (err x, m)))
        ⊎ ((r : RunState) × (Dict.get m.runs id ≡ some r)
            × (transitions r.status target ≡ true)
            × (transition id target apply extra now emitted m ≡ (
              ok (apply (moved r target now)),
              after_transition id (apply (moved r target now)) target extra emitted m,
            )))
  unfolding transition require_run after_transition
  transition-cases m = elim (Option-cases (Dict.get m.runs id)) [
    | inl missing ↦ inl (not_found, rw missing)
    | inr (r, found) ↦ elim (Bool-cases (transitions r.status target)) [
      | inl allowed ↦ inr (r, found, allowed, rw (found, allowed))
      | inr refused ↦ inl (invalid_transition, rw (found, refused))
    ]
  ]

  transition-Move :
      (o : Operation) (m : Manager)
      → ((r : RunState) → (apply (moved r target now)).status ≡ target)
      → ((r : RunState)
          → Dict.get m.runs id ≡ some r
          → transitions r.status target ≡ true
          → Update r (apply (moved r target now)))
      → Move o m (transition id target apply extra now emitted m).1
  unfolding after_transition emit_event
  transition-Move o m reaches updates = elim (transition-cases m) [
    | inl (x, e) ↦ rw e (stay refl)
    | inr (r, found, allowed, e) ↦ rw e (
        advance id r (apply (moved r target now)) found (updates r found allowed) refl (record {
          make = _;
          appended = refl;
          carries = λ n. refl;
          about = λ n. refl;
          announces = λ n. rw (reaches r) refl;
        }))
  ]

  -- A transition that delivers no payload, and writes no id, attempts or payload flag.
  plain-Move :
      (o : Operation) (m : Manager)
      → is_loading target ≡ false
      → ((r : RunState) → (apply (moved r target now)).status ≡ target)
      → ((r : RunState) → (apply (moved r target now)).run_id ≡ r.run_id)
      → ((r : RunState) → (apply (moved r target now)).attempts ≡ r.attempts)
      → ((r : RunState) → (apply (moved r target now)).payload_delivered ≡ r.payload_delivered)
      → ((r : RunState)
          → transitions r.status target ≡ true
          → IsConsistent r
          → IsConsistent (apply (moved r target now)))
      → Move o m (transition id target apply extra now emitted m).1
  plain-Move o m other reaches ids attempts flags keeps =
      transition-Move o m reaches (λ r found allowed. record {
        edge = rw (reaches r) allowed;
        same_id = ids r;
        same_attempts = attempts r;
        loads = λ h. flags r ∙ h;
        once = λ h. absurd (cc (h, reaches r, other));
        keeps = keeps r allowed;
      })

begin-Move :
    (o : Operation) (input : RequestInput) (id : String) (attempts now emitted : ℕ) (m : Manager)
    → drawn o ≡ some id
    → 1 ≤ attempts
    → Move o m (begin_run input id attempts now emitted m).1
unfolding begin_run emit_event
begin-Move o input id attempts now emitted m draws tried =
    enter id _ draws refl refl (ground arith) refl (record {
      make = _;
      appended = refl;
      carries = λ n. refl;
      about = λ n. refl;
      announces = λ n. refl;
    })

deliver-Move :
    (id : String) (deadline : Option String) (now emitted : ℕ) (m : Manager)
    → Move (delivers id deadline) m (deliver_payload id deadline now emitted m).1
unfolding deliver_payload require_run
deliver-Move id deadline now emitted m = elim (Option-cases (Dict.get m.runs id)) [
  | inl missing ↦ rw missing (stay refl)
  | inr (r, found) ↦ elim (Bool-cases r.payload_delivered) [
    | inl already ↦ rw (found, already) (stay refl)
    | inr not_yet ↦
        rw (found, not_yet)
          (transition-Move id payload_delivered (payload_fields deadline) no_extra now emitted
            (delivers id deadline) m (λ s. refl)
            (λ s held allowed.
              let same : r ≡ s = cc in
              record {
                edge = allowed;
                same_id = refl;
                same_attempts = refl;
                loads = λ h. refl;
                once = λ h. (cc (not_yet, same), refl);
                keeps = λ c. ground arith;
              }))
  ]
]

retry-Move :
    (id new_id : String) (now emitted : ℕ) (m : Manager)
    → Move (retries id new_id) m (retry_execution id new_id now emitted m).1
unfolding retry_execution require_run
retry-Move id new_id now emitted m = elim (Option-cases (Dict.get m.runs id)) [
  | inl missing ↦ rw missing (stay refl)
  | inr (r, found) ↦ elim (Bool-cases (may_retry r.status)) [
    | inl may ↦
        rw (found, may)
          (begin-Move (retries id new_id) (request_of r) new_id (r.attempts + 1) now emitted m refl
            (omega arith))
    | inr other ↦ rw (found, other) (stay refl)
  ]
]

end-Move :
    (o : Operation) (id : String) (target : ExecutionStatus) (code : FailureCode) (now emitted : ℕ)
    (m : Manager)
    → is_broken target ≡ true
    → Move o m (end_run id target code now emitted m).1
end-Move o id target code now emitted m breaks =
    plain-Move id target (end_fields code) _ now emitted o m (ground (arith, breaks)) (λ r. refl)
      (λ r. refl) (λ r. refl) (λ r. refl) (λ r allowed c. ground (arith, breaks))

pub step-Move : (m : Manager) (o : Operation) (now emitted : ℕ) → Move o m (step m o now emitted)
unfolding step request_execution mark_ready start_running report_result fail_execution
    timeout_execution cancel_execution
step-Move m (requests input id) now emitted =
    begin-Move (requests input id) input id 1 now emitted m refl (omega arith)
step-Move m (retries id new_id) now emitted = retry-Move id new_id now emitted m
step-Move m (delivers id deadline) now emitted = deliver-Move id deadline now emitted m
step-Move m (readies id deadline) now emitted =
    plain-Move id session_ready (ready_fields deadline) _ now emitted (readies id deadline) m refl
      (λ r. refl) (λ r. refl) (λ r. refl) (λ r. refl) (λ r allowed c. ground arith)
step-Move m (starts id) now emitted =
    plain-Move id running running_fields no_extra now emitted (starts id) m refl (λ r. refl)
      (λ r. refl) (λ r. refl) (λ r. refl) (λ r allowed c. ground arith)
step-Move m (reports id result) now emitted =
    plain-Move id result_reported (result_fields result) _ now emitted (reports id result) m refl
      (λ r. refl) (λ r. refl) (λ r. refl) (λ r. refl) (λ r allowed c. ground arith)
step-Move m (fails id reason) now emitted =
    end-Move (fails id reason) id failed (resolve_failure_code reason) now emitted m refl
step-Move m (times_out id) now emitted =
    end-Move (times_out id) id timeout execution_timeout now emitted m refl
step-Move m (cancels id) now emitted =
    end-Move (cancels id) id cancelled cancelled_by_operator now emitted m refl
