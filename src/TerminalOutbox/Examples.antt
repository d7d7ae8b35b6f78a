-- ===== src/TerminalOutbox/Examples.antt =====
-- Runs of the outbox: the two finished tasks of a round, and a notifier that fetches one record at a time.
use a2a_broker.Prelude.Dict
use a2a_broker.Prelude.{String, Option, none, some, ◌≡◌, refl, ℕ, length, map, ◌∷◌, []}
use a2a_broker.Broker.Types.{TaskStatus}
use a2a_broker.TerminalOutbox.Types.{
  Payload, EventKind, OutboxEvent, ReceiptInput, AckInput, evidence_of,
}
use a2a_broker.TerminalOutbox.Outbox.{Outbox, new}
use a2a_broker.TerminalOutbox.Enqueue.{enqueue}
use a2a_broker.TerminalOutbox.Cursor.{is_receipt_confirmed, subscribe_with_cursor}
use a2a_broker.TerminalOutbox.Evidence.{SendConfirmsNone, send_success-confirms_none}
use a2a_broker.TerminalOutbox.Replay.{Continues, subscribe_with_cursor-Continues}

abbrev payload_of : String → Payload
payload_of id = record {
  task_id = id;
  status = TaskStatus.succeeded;
  run = some "round";
  trace_id = none;
  worker = some "worker";
  repo = none;
  issue = none;
  task_brief = none;
  parent_round_total = some 2;
  parent_round_progress = none;
}

abbrev finish : ℕ → String → Outbox → Outbox × Option OutboxEvent
unfolding enqueue
finish n id o =
    enqueue (λ s. s)
      (record {
        id = n;
        kind = EventKind.succeeded;
        task_id = id;
        status = TaskStatus.succeeded;
        timestamp = "t2";
      })
      (record {
        id = id;
        status = TaskStatus.succeeded;
        completed_at = some "t1";
        updated_at = "t0";
      })
      (payload_of id) o

abbrev two_finished : Outbox
unfolding new finish
two_finished = (finish 2 "b" (finish 1 "a" (new none)).0).0

-- A second event of the same task adds no record.
enqueue_again : length (finish 3 "a" two_finished).0.events ≡ 2
unfolding two_finished
enqueue_again = refl

-- The progress of the round counts its succeeded tasks.
second_of_round :
    map (λ e. e.payload.parent_round_progress) two_finished.events ≡ some 1 ∷ some 2 ∷ []
unfolding two_finished Dict.get Dict.set
second_of_round = refl

-- The record before the cursor comes again, and the limit of one leaves the cursor where it was.
limit_of_one :
    (subscribe_with_cursor two_finished (some "terminal:a:succeeded:t1") (some 1)).cursor
    ≡ some "terminal:a:succeeded:t1"
unfolding subscribe_with_cursor two_finished is_receipt_confirmed
limit_of_one = refl

subscribe_with_cursor-Continues_example :
    Continues two_finished
      (some "terminal:a:succeeded:t1")
      (some 2)
      (subscribe_with_cursor two_finished (some "terminal:a:succeeded:t1") (some 2))
unfolding two_finished
subscribe_with_cursor-Continues_example =
    subscribe_with_cursor-Continues two_finished (some "terminal:a:succeeded:t1") (some 2)
      (refl, (refl, tt)) refl

abbrev sent : ReceiptInput
sent = record { status = "provider_sent"; updated_at = none; note = none }

abbrev sent_only : AckInput
sent_only = record {
  evidence = "provider_sent";
  acknowledged_at = none;
  receipt_id = none;
  note = none;
}

send_success-confirms_none_example :
    SendConfirmsNone (λ t. t) "terminal:a:succeeded:t1" sent sent_only "t3" two_finished
unfolding evidence_of
send_success-confirms_none_example =
    send_success-confirms_none (λ t. t) "terminal:a:succeeded:t1" sent sent_only "t3" two_finished
      refl
