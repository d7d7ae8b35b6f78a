-- ===== src/Proposal/Examples.antt =====
-- Runs of the proposal manager, and instances of its theorems.
use a2a_broker.Prelude.{ℕ, some, List, none, [], ◌∷◌, take, ◌≡◌, drop, refl, filter}
use mathlib.Core.Option
use mathlib.Core.List.{Memᴰ}
use a2a_broker.Prelude.Dict
use a2a_broker.EventBuffer
use a2a_broker.Proposal.Types.{
  ProposalStatus, Proposal, approved, applying, applied, blocked, chair_veto, resolve_block_reason,
}
use a2a_broker.Proposal.Manager.{
  emit_event, invalid_transition, Manager, CreateInput, new, transition, emit_event,
  SubscribeOptions, matches,
}
use a2a_broker.Proposal.Moves.{
  Operation, creates, blocks, fails, approves, starts, completes, Call, run, call, key_of,
  target_of,
}
use a2a_broker.EventBuffer.Replay.{wanted}
use a2a_broker.Proposal.Invariant.{IsValid, run-IsValid, read_pages, run-read_pages}
use a2a_broker.Proposal.Finality.{run-final, run-needs_approve}
use a2a_broker.Proposal.Responses.{call-error_unchanged}

abbrev input : CreateInput
input = record {
  parent_task_id = "task-1";
  conference_room_id = some "room-1";
  summary = "raise the limit";
  participants = [];
  artifacts = none;
}

abbrev at_time : Operation → ℕ → Call
at_time o n = record { operation = o; now = n; emitted = n }

-- Created, blocked, approved, started, failed, approved again, started and completed.
abbrev script : List Call
script =
    at_time (creates input "p1") 1
    ∷ at_time (blocks "p1" "veto") 2
    ∷ at_time (approves "p1") 3
    ∷ at_time (starts "p1") 4
    ∷ at_time (fails "p1" "timeout") 5
    ∷ at_time (approves "p1") 6
    ∷ at_time (starts "p1") 7
    ∷ at_time (completes "p1") 8
    ∷ []

abbrev after : ℕ → Manager
after n = run (new none) (take n script)

-- The proposal as it stands after `n` calls of the script, from the third on.
abbrev approved_once : Proposal
approved_once = record {
  id = "p1";
  parent_task_id = "task-1";
  conference_room_id = some "room-1";
  status = approved;
  summary = "raise the limit";
  participants = [];
  artifacts = [];
  reason_code = some chair_veto;
  created_at = 1;
  updated_at = 3;
  apply_started_at = none;
  apply_completed_at = none;
  apply_attempts = 0;
}

abbrev started_once : Proposal
started_once = record approved_once { status = applying; updated_at = 4; apply_started_at = some 4 }

abbrev applied_at_once : Proposal
applied_at_once = record started_once {
  status = applied;
  updated_at = 5;
  apply_completed_at = some 5;
}

-- A manager with one proposal and no event.
abbrev holding : Proposal → Manager
holding p = record { proposals = ("p1", p) ∷ []; buffer = EventBuffer.new 500 }

script_applies :
    Option.map {B = ProposalStatus × ℕ}
      (λ p. (p.status, p.apply_attempts))
      (Dict.get (after 8).proposals "p1")
    ≡ some (applied, 1)
unfolding run call transition emit_event resolve_block_reason new EventBuffer.emit EventBuffer.trim
    Dict.get Dict.set
script_applies = refl

run-IsValid_example : IsValid (run (new (some 3)) script)
run-IsValid_example = run-IsValid (some 3) script

run-final_example :
    Dict.get (run (holding applied_at_once) (drop 1 script)).proposals "p1" ≡ some applied_at_once
unfolding Dict.get
run-final_example =
    run-final (holding applied_at_once) (drop 1 script) "p1" applied_at_once refl refl
      ((λ e. cc), ((λ e. cc), ((λ e. cc), ((λ e. cc), ((λ e. cc), ((λ e. cc), ((λ e. cc), tt)))))))

run-needs_approve_example :
    (c : Call) × Memᴰ c script × (key_of c.operation ≡ "p1") × (target_of c.operation ≡ approved)
unfolding run call transition emit_event resolve_block_reason new EventBuffer.emit EventBuffer.trim
    Dict.get Dict.set
run-needs_approve_example = run-needs_approve (new none) script "p1" refl refl

call-error_unchanged_example :
    (call (completes "p1") 9 9 (holding approved_once)).1 ≡ holding approved_once
unfolding call transition Dict.get
call-error_unchanged_example =
    call-error_unchanged (completes "p1") 9 9 (holding approved_once) {x = invalid_transition} refl

abbrev blocked_once : Proposal
blocked_once = record approved_once { status = blocked; updated_at = 2 }

abbrev of_task : SubscribeOptions
of_task = record {
  after_id = none;
  parent_task_id = some "task-1";
  conference_room_id = none;
  limit = none;
}

run-read_pages_example :
    let m = run (new none) script in
    read_pages m of_task 1 (2 ∷ 0 ∷ 1 ∷ [])
    ≡ filter (wanted (λ e. e.id) 1 (matches of_task)) m.buffer.events
run-read_pages_example = run-read_pages none script of_task 1 (2 ∷ 0 ∷ 1 ∷ [])
