-- ===== src/Execution/Moves.antt =====
-- Every call on the manager makes one of three moves: it leaves the manager alone, enters a new run, or
-- advances one along an edge of `EXECUTION_TRANSITIONS`.
use a2a_broker.Prelude.{
  ℕ, ◌≤◌, ◌≡◌, String, Bool, true, false, List, [], ◌∷◌, Option, none, some, is_some,
}
use a2a_broker.Prelude.Dict
use a2a_broker.EventBuffer.Announce
use a2a_broker.Execution.Types.{
  RunState, ExecutionEvent, ExecutionStatus, wake_requested, payload_delivered, running,
  result_reported, failed, timeout, cancelled, transitions, status_to_event_kind, ResultArtifact,
}
use a2a_broker.Execution.Manager.{
  Manager, Action, RequestInput, request_execution, mark_ready, deliver_payload, start_running,
  report_result, fail_execution, timeout_execution, cancel_execution, retry_execution,
}

pub data Operation : Type 0 where
  requests : RequestInput → String → Operation
  readies delivers : String → Option String → Operation
  starts times_out cancels : String → Operation
  reports : String → ResultArtifact → Operation
  fails retries : String → String → Operation

-- One call, with the two readings of the clock that it may take.
unfoldable pub call : Operation → ℕ → ℕ → Action RunState
unfolding request_execution mark_ready deliver_payload start_running report_result fail_execution
    timeout_execution cancel_execution retry_execution
call (requests input id) = request_execution input id
call (readies id deadline) = mark_ready id deadline
call (delivers id deadline) = deliver_payload id deadline
call (starts id) = start_running id
call (reports id result) = report_result id result
call (fails id reason) = fail_execution id reason
call (times_out id) = timeout_execution id
call (cancels id) = cancel_execution id
call (retries id new_id) = retry_execution id new_id

-- The manager after a call. An error leaves what the call wrote before it.
unfoldable pub step : Manager → Operation → ℕ → ℕ → Manager
unfolding call
step m o now emitted = (call o now emitted m).1

pub record Call : Type 0 where
  pub operation : Operation
  pub now : ℕ
  pub emitted : ℕ

unfoldable pub run : Manager → List Call → Manager
unfolding step
run m [] = m
run m (c ∷ calls) = run (step m c.operation c.now c.emitted) calls

-- The id that a call draws from the factory.
abbrev pub drawn : Operation → Option String
drawn (requests input id) = some id
drawn (retries id new_id) = some new_id
drawn _ = none

-- An id from the factory is in use for no run, as an id drawn at random.
abbrev pub IsUnused : Manager → Option String → Type 0
IsUnused m none = Unit
IsUnused m (some id) = Dict.get m.runs id ≡ none

abbrev pub AreFresh : Manager → List Call → Type 0
AreFresh m [] = Unit
AreFresh m (c ∷ calls) =
    IsUnused m (drawn c.operation) × AreFresh (step m c.operation c.now c.emitted) calls

abbrev pub is_waking : ExecutionStatus → Bool
is_waking wake_requested = true
is_waking _ = false

abbrev pub has_payload : ExecutionStatus → Bool
has_payload payload_delivered = true
has_payload running = true
has_payload result_reported = true
has_payload _ = false

abbrev pub has_started : ExecutionStatus → Bool
has_started running = true
has_started result_reported = true
has_started _ = false

abbrev pub is_reported : ExecutionStatus → Bool
is_reported result_reported = true
is_reported _ = false

abbrev pub is_broken : ExecutionStatus → Bool
is_broken failed = true
is_broken timeout = true
is_broken cancelled = true
is_broken _ = false

pub record IsConsistent (r : RunState) : Type 0 where
  pub waking : is_waking r.status ≡ true → r.payload_delivered ≡ false
  pub loaded : has_payload r.status ≡ true → r.payload_delivered ≡ true
  pub timed : r.payload_delivered ≡ is_some r.payload_delivered_at
  pub started : has_started r.status ≡ true → is_some r.started_at ≡ true
  pub reported : is_reported r.status ≡ is_some r.result
  pub completed : is_reported r.status ≡ true → is_some r.completed_at ≡ true
  pub broken :
      is_broken r.status ≡ true → (is_some r.failure_code ≡ true) × (is_some r.completed_at ≡ true)
  pub tried : 1 ≤ r.attempts

abbrev pub is_loading : ExecutionStatus → Bool
is_loading payload_delivered = true
is_loading _ = false

pub record Update (r r' : RunState) : Type 0 where
  pub edge : transitions r.status r'.status ≡ true
  pub same_id : r'.run_id ≡ r.run_id
  pub same_attempts : r'.attempts ≡ r.attempts
  pub loads : r.payload_delivered ≡ true → r'.payload_delivered ≡ true
  pub once :
      is_loading r'.status ≡ true → (r.payload_delivered ≡ false) × (r'.payload_delivered ≡ true)
  pub keeps : IsConsistent r → IsConsistent r'

-- The event of a move names the run's new status.
abbrev pub Names : RunState → ExecutionEvent → Type 0
Names r e = e.kind ≡ status_to_event_kind r.status

abbrev pub Emits : String → RunState → Manager → Manager → Type 0
Emits k r m m' = Announce.Emits (λ e. e.id) (λ e. e.run_id) Names k r m.buffer m'.buffer

pub data Move (o : Operation) (m m' : Manager) : Type 0 where
  stay : m' ≡ m → Move o m m'
  enter :
      (id : String) (r : RunState)
      → drawn o ≡ some id
      → r.status ≡ wake_requested
      → r.run_id ≡ id
      → IsConsistent r
      → m'.runs ≡ Dict.set m.runs id r
      → Emits id r m m'
      → Move o m m'
  advance :
      (k : String) (r r' : RunState)
      → Dict.get m.runs k ≡ some r
      → Update r r'
      → m'.runs ≡ Dict.set m.runs k r'
      → Emits k r' m m'
      → Move o m m'
