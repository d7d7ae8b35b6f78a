-- ===== src/Execution/Queries.antt =====
-- src/core/execution-lifecycle.ts: what the manager answers and does not change.
use a2a_broker.Prelude.{
  has_text, is_past, ℕ, String, Bool, true, false, List, Option, none, some, truthy, filter, map,
  passes, ◌==◌, ◌&&◌,
}
use a2a_broker.Prelude.Dict
use a2a_broker.EventBuffer
use a2a_broker.Execution.Types.{
  RunState, ExecutionStatus, session_ready, payload_delivered, running, result_reported,
  ExecutionEvent, CloseoutKind, CloseoutSummary,
}
use a2a_broker.Execution.Manager.{Manager}

unfoldable pub get_runs_for_session : Manager → String → List RunState
get_runs_for_session m key = filter (λ r. r.session_key == key) (Dict.values m.runs)

unfoldable pub get_runs_for_task : Manager → String → List RunState
get_runs_for_task m task = filter (λ r. has_text task r.parent_task_id) (Dict.values m.runs)

abbrev pub closeout_kind : ExecutionStatus → CloseoutKind
closeout_kind result_reported = CloseoutKind.completed
closeout_kind ExecutionStatus.failed = CloseoutKind.failed
closeout_kind ExecutionStatus.timeout = CloseoutKind.timed_out
closeout_kind ExecutionStatus.cancelled = CloseoutKind.cancelled
closeout_kind _ = CloseoutKind.waiting

abbrev pub to_closeout_summary : RunState → CloseoutSummary
to_closeout_summary r = record {
  run_id = r.run_id;
  session_key = r.session_key;
  peer_node_id = r.peer_node_id;
  kind = closeout_kind r.status;
  attempts = r.attempts;
  result = r.result;
  failure_code = r.failure_code;
  updated_at = r.updated_at;
}

unfoldable pub closeout_run : Manager → String → Option CloseoutSummary
closeout_run m id = elim (Dict.get m.runs id) [
  | none ↦ none
  | some r ↦ some (to_closeout_summary r)
]

unfoldable pub closeout_task : Manager → String → List CloseoutSummary
unfolding get_runs_for_task
closeout_task m task = map (λ r. to_closeout_summary r) (get_runs_for_task m task)

unfoldable pub closeout_session : Manager → String → List CloseoutSummary
unfolding get_runs_for_session
closeout_session m key = map (λ r. to_closeout_summary r) (get_runs_for_session m key)

abbrev pub is_leased : ExecutionStatus → Bool
is_leased session_ready = true
is_leased payload_delivered = true
is_leased running = true
is_leased _ = false

abbrev pub is_over_lease : (String → Option ℕ) → ℕ → RunState → Bool
is_over_lease parse_date now r =
    truthy r.lease_deadline && is_leased r.status && is_past parse_date r.lease_deadline now

unfoldable pub is_lease_expired : (String → Option ℕ) → Manager → ℕ → String → Bool
is_lease_expired parse_date m now id = elim (Dict.get m.runs id) [
  | none ↦ false
  | some r ↦ is_over_lease parse_date now r
]

-- One reading of the clock, where the code reads it again for each record.
unfoldable pub find_expired_leases : (String → Option ℕ) → Manager → ℕ → List String
unfolding is_lease_expired
find_expired_leases parse_date m now =
    map (λ r. r.run_id)
      (filter (λ r. is_lease_expired parse_date m now r.run_id) (Dict.values m.runs))

pub record SubscribeOptions : Type 0 where
  pub after_id : Option ℕ
  pub run_id : Option String
  pub session_key : Option String
  pub peer_node_id : Option String
  pub parent_task_id : Option String
  pub limit : Option ℕ

abbrev pub matches : SubscribeOptions → ExecutionEvent → Bool
matches options e =
    passes options.run_id (some e.run_id)
    && passes options.session_key (some e.session_key)
    && passes options.peer_node_id (some e.peer_node_id)
    && passes options.parent_task_id e.parent_task_id

unfoldable pub subscribe : Manager → SubscribeOptions → List ExecutionEvent
subscribe m options =
    EventBuffer.subscribe (λ e. e.id) m.buffer options.after_id options.limit (matches options)
