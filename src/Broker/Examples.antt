-- ===== src/Broker/Examples.antt =====
-- The broker's theorems on the small broker.
use Prim.Native.Nat.{zero}
use a2a_broker.Prelude.{◌≡◌, refl, String, List, [], ◌∷◌, some, none, arith, ℕ, map, suc, true}
use a2a_broker.Prelude.Dict
use a2a_broker.Prelude.Dict.{Dict}
use a2a_broker.Prelude.Exec.{ok, err}
use a2a_broker.EventBuffer.{trim}
use a2a_broker.Prelude.Trim.{normalize_string}
use a2a_broker.Broker.Types.{TaskRecord, claimed, TaskUpdate}
use a2a_broker.Broker.State.{
  Broker, require_task, require_worker, now, fresh_id, commit_task, sync_exchange, append_audit,
  audit_id, emit_task_update, policy_denied, replay_task_events, write_tombstone,
}
use a2a_broker.Broker.Guards.{assert_task_worker, assert_task_ownership}
use a2a_broker.Broker.Tasks.{claim_task, start_task, fail_task, normalize_task_error}
use a2a_broker.Broker.Requeue.{
  back, requeue_task, sweep_tasks, sweep_task, announce_all, requeue_stale_tasks,
  get_task_requeue_reason, stale_ids, list_stale_worker_ids,
}
use a2a_broker.Broker.Lifecycle.{IsValid, IsStored, IsSound, HasStone}
use a2a_broker.Broker.Operations.{
  Operation, call, run, claim, start, fail, cancel, requeue_stale, run-tasks-IsValid,
  call-throws_unchanged,
}
use a2a_broker.Broker.EventIds.{
  parse_sse_event_id, format_sse_event_id, parse-format_sse_event_id, last_colon,
}
use a2a_broker.Broker.Claims.{Granted, IsExclusive, claim_task-Granted, claim_task-IsExclusive}
use a2a_broker.Broker.Walks.{IsCanceled}
use a2a_broker.Broker.Descendants.{Below, top, under, cancel_task-reaches}
use a2a_broker.EventBuffer.Replay.{Ascends}
use a2a_broker.Broker.Numbers.{IsNumbered}
use a2a_broker.Broker.Replays.{seq_of, run-replay-Ascends}
use a2a_broker.Broker.Cancel.{
  cancel_task, cancel_children, cancel_tree, cancel_task_tree, cancel_task_record, list_child_tasks,
}
use a2a_broker.Broker.Recovery.{requeue_stale_tasks-recovers}
use a2a_broker.Broker.Samples.{boss, parent_task, child_task, old_task, start_broker}

parent-IsSound : IsSound 2 parent_task
parent-IsSound = ground arith

child-IsSound : IsSound 2 child_task
child-IsSound = ground arith

old-IsSound : IsSound 2 old_task
old-IsSound = ground arith

three_hold :
    (P : String → TaskRecord → Type 0)
    → P "parent" parent_task
    → P "child" child_task
    → P "old" old_task
    → Dict.Holds P start_broker.tasks
unfolding Dict.set Dict.get
three_hold P parent child old =
    Dict.Holds-set P (("parent", parent_task) ∷ ("child", child_task) ∷ []) "old" old_task
      (Dict.Holds-set P (("parent", parent_task) ∷ []) "child" child_task
        (Dict.Holds-set P [] "parent" parent_task (λ k v found. absurd (cc found)) parent) child)
      old

pub start-IsValid : IsValid start_broker
start-IsValid = record {
  stored = three_hold (IsStored 2) (refl, parent-IsSound) (refl, child-IsSound) (refl, old-IsSound);
  buried =
      three_hold (HasStone start_broker) (λ over. absurd (cc over)) (λ over. absurd (cc over))
        (λ over. absurd (cc over));
}

pub parent_found : Dict.get start_broker.tasks "parent" ≡ some parent_task
unfolding Dict.get
parent_found = refl

pub old_found : Dict.get start_broker.tasks "old" ≡ some old_task
unfolding Dict.get
old_found = refl

abbrev claimed_parent : TaskRecord
claimed_parent = record parent_task {
  status = claimed;
  attempt_id = some "id";
  claimed_by = some "w1";
  claimed_at = some 10;
  updated_at = 10;
}

claim_succeeds : (claim_task "parent" "w1" start_broker).0 ≡ ok claimed_parent
unfolding claim_task require_task assert_task_worker assert_task_ownership require_worker now
    fresh_id commit_task sync_exchange append_audit audit_id emit_task_update Dict.get
    normalize_string
claim_succeeds = refl

claim_denied : (call (claim "parent" "w2") start_broker).0 ≡ err policy_denied
unfolding call claim_task require_task assert_task_worker assert_task_ownership require_worker
    Dict.get normalize_string
claim_denied = refl

abbrev pub story : List Operation
story =
    claim "parent" "w1"
    ∷ start "parent" "w1"
    ∷ fail "parent" "w1" none
    ∷ cancel "child" (some boss) none
    ∷ requeue_stale 5 none 100
    ∷ []

run-tasks-IsValid_example : IsValid (run story start_broker)
run-tasks-IsValid_example = run-tasks-IsValid story start_broker start-IsValid

call-throws_unchanged_example : (call (claim "parent" "w2") start_broker).1 ≡ start_broker
call-throws_unchanged_example =
    call-throws_unchanged (claim "parent" "w2") start_broker policy_denied start-IsValid
      claim_denied

claim_task-Granted_example :
    Granted "parent" "w1" start_broker (claim_task "parent" "w1" start_broker)
claim_task-Granted_example =
    claim_task-Granted "parent" "w1" start_broker claimed_parent claim_succeeds

claim_task-IsExclusive_example : IsExclusive "parent" "w2" (claim_task "parent" "w1" start_broker).1
claim_task-IsExclusive_example =
    claim_task-IsExclusive "parent" "w1" "w2" start_broker claimed_parent start-IsValid refl refl
      claim_succeeds

-- A broker whose claimed task belongs to a worker that has been silent for long.
abbrev lost_broker : Broker
lost_broker = record start_broker { tasks = ("parent", claimed_parent) ∷ [] }

lost-IsSound : IsSound 2 claimed_parent
lost-IsSound = ground arith

lost-IsValid : IsValid lost_broker
unfolding Dict.set Dict.get
lost-IsValid = record {
  stored =
      Dict.Holds-set (IsStored 2) [] "parent" claimed_parent (λ k v found. absurd (cc found))
        (refl, lost-IsSound);
  buried =
      Dict.Holds-set (HasStone lost_broker) [] "parent" claimed_parent
        (λ k v found. absurd (cc found)) (λ over. absurd (cc over));
}

lost_requeued :
    Dict.get (requeue_stale_tasks 1000 (some 50) 100 lost_broker).broker.tasks "parent"
    ≡ some (back claimed_parent 100)
unfolding requeue_stale_tasks sweep_tasks sweep_task get_task_requeue_reason list_stale_worker_ids
    requeue_task sync_exchange append_audit audit_id now fresh_id announce_all emit_task_update trim
    Dict.get Dict.set
lost_requeued = refl

requeue_stale_tasks-recovers_example :
    get_task_requeue_reason (back claimed_parent 100) 1000 (stale_ids (some 50) 100 lost_broker) 100
    ≡ none
requeue_stale_tasks-recovers_example =
    requeue_stale_tasks-recovers 1000 (some 50) 100 lost_broker "parent" (back claimed_parent 100)
      lost-IsValid lost_requeued

child-Below : Below start_broker "parent" "child"
unfolding Dict.get
child-Below = under top (record { record_of = child_task; found = refl; is_below = refl }) refl

cancel_task-reaches_example :
    ((u : TaskRecord) × ((cancel_task "parent" (some boss) none start_broker).0 ≡ ok u))
    × ((k : String)
        → Below start_broker "parent" k
        → IsCanceled (cancel_task "parent" (some boss) none start_broker).1 k)
cancel_task-reaches_example =
    cancel_task-reaches "parent" boss none start_broker parent_task start-IsValid parent_found refl
      refl refl

start-IsNumbered : IsNumbered start_broker
unfolding Dict.get
start-IsNumbered = λ k. record { ascending = tt; bounded = tt }

run-replay-Ascends_example :
    Ascends seq_of 1 (replay_task_events (run story start_broker) "parent" 1)
    × IsNumbered (run story start_broker)
run-replay-Ascends_example =
    run-replay-Ascends story start_broker "parent" 1 start-IsValid start-IsNumbered

abbrev seqs : List TaskUpdate → List ℕ
seqs us = map (λ u. u.seq) us

story_replayed : seqs (replay_task_events (run story start_broker) "parent" 1) ≡ 2 ∷ 3 ∷ []
unfolding replay_task_events run call claim_task start_task fail_task cancel_task
    normalize_task_error require_task require_worker assert_task_worker assert_task_ownership now
    fresh_id commit_task sync_exchange append_audit audit_id emit_task_update write_tombstone
    cancel_task_tree cancel_tree cancel_children cancel_task_record list_child_tasks
    requeue_stale_tasks sweep_tasks sweep_task get_task_requeue_reason list_stale_worker_ids
    announce_all trim normalize_string Dict.get Dict.set
story_replayed = refl

-- Numbers in strokes.
abbrev strokes : ℕ → String
strokes zero = ""
strokes (suc n) = String.◌∷◌ "|" (strokes n)

abbrev count_strokes : String → ℕ
count_strokes String.[] = 0
count_strokes (String.◌∷◌ c s) = suc (count_strokes s)

parse-format_sse_event_id_example :
    parse_sse_event_id strokes count_strokes
      (λ n. true)
      (format_sse_event_id strokes count_strokes (λ n. true) "team:task" 3)
    ≡ some ("team:task", 3)
unfolding last_colon
parse-format_sse_event_id_example =
    parse-format_sse_event_id strokes count_strokes (λ n. true) "team:task" 3 (λ e. cc) refl refl
      refl
