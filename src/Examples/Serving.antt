-- ===== src/Examples/Serving.antt =====
-- The properties of the queue, the broadcaster and the handlers at concrete inputs.
use iot_devices_ledger_audit.Prelude.{
  none, ℕ, ◌≡◌, ◌⊎◌, ◌<◌, ◌≤◌, ◌+◌, ◌-◌, min, ◌∷◌, [], ◌++◌, refl, true, false, List, some, ok, err,
  All, arith, length, get_elem?,
}
use iot_devices_ledger_audit.Prelude.Bytes.{Bytes, bytes}
use iot_devices_ledger_audit.Prelude.Decimal.{to_string}
use iot_devices_ledger_audit.Json.Sample.{sample}
use iot_devices_ledger_audit.Error.{api_error}
use iot_devices_ledger_audit.Queue.{empty, push, pop, size}
use iot_devices_ledger_audit.Queue.Monitor.{Monitor, Move, unused, step, run}
use iot_devices_ledger_audit.Queue.Wakeups.{run_wakes}
use iot_devices_ledger_audit.Queue.History
use iot_devices_ledger_audit.Queue.History.{run-fifo, waits_iff, pop_times, close_drains}
use iot_devices_ledger_audit.Broadcast.Subscriber.{pending_lag, buffered}
use iot_devices_ledger_audit.Broadcast.Calls
use iot_devices_ledger_audit.Broadcast.Gaps.{Gaps}
use iot_devices_ledger_audit.Broadcast.Delivery.{run_delivers}
use iot_devices_ledger_audit.Writer.{AppState}
use iot_devices_ledger_audit.Server.Index.{Request}
use iot_devices_ledger_audit.Server.Stopping
use iot_devices_ledger_audit.Server.Stopping.{run_stops, OnlyAlive, Missed}
use iot_devices_ledger_audit.Server.Slice.{select_lem}
use iot_devices_ledger_audit.Server.Handlers.{select, submit_event}
use iot_devices_ledger_audit.Server.Events.{Submitted, submit_event-Submitted}
use iot_devices_ledger_audit.Examples.Data.{Json, first_state}

-- The capacity is 1: the second push waits, and the last one is refused.
abbrev queue_calls : List (History.Call ℕ)
queue_calls =
    History.pushes 4
    ∷ History.pushes 5
    ∷ History.pops
    ∷ History.pushes 6
    ∷ History.closes
    ∷ History.pushes 7
    ∷ []

run-fifo_example :
    let t = History.run (History.start 1) queue_calls in
    (t.accepted ≡ t.handed ++ t.queue.items) × (size t.queue ≤ 1)
run-fifo_example = run-fifo 1 queue_calls

-- A popper sleeps on the empty queue, is woken by a push, takes the element, and sleeps again.
abbrev sleepy_moves : List (Move ℕ)
sleepy_moves =
    Move.calls_pop
    ∷ Move.looks_pop
    ∷ Move.calls_push
    ∷ Move.looks_push 4
    ∷ Move.sends_empty
    ∷ Move.looks_pop
    ∷ Move.sends_full
    ∷ Move.calls_pop
    ∷ Move.looks_pop
    ∷ []

abbrev one_sleeps : Monitor ℕ
one_sleeps = record (unused 1) { asleep_pop = 1 }

sleepy_run : run (unused 1) sleepy_moves ≡ one_sleeps
unfolding run step push pop empty
sleepy_run = refl

run_wakes_example :
    ((one_sleeps.asleep_pop ≡ 0)
      ⊎ ((one_sleeps.queue.items ≡ []) × (one_sleeps.queue.closed ≡ false)))
    × ((one_sleeps.asleep_push ≡ 0)
        ⊎ ((one_sleeps.queue.capacity ≤ length one_sleeps.queue.items)
            × (one_sleeps.queue.closed ≡ false)))
run_wakes_example =
    run_wakes 1 sleepy_moves one_sleeps sleepy_run (refl, refl, refl, refl, refl, refl)

abbrev two_queued : History.Trace ℕ
two_queued = History.run (History.start 2) (History.pushes 4 ∷ History.pushes 5 ∷ [])

-- The capacity is 2: the third push drops a block, which the first item reports.
abbrev subscriber_calls : List (Calls.Call ℕ)
subscriber_calls =
    Calls.pushes 4
    ∷ Calls.pushes 5
    ∷ Calls.pushes 6
    ∷ Calls.nexts
    ∷ Calls.closes
    ∷ Calls.pushes 7
    ∷ []

run_delivers_example :
    (t : Calls.Trace ℕ) × (lost : List ℕ) × (Calls.run (Calls.start 2) subscriber_calls ≡ some t)
    × Gaps t.published t.delivered (lost ++ t.sub.buffer)
    × (length lost ≡ pending_lag t.sub)
    × (buffered t.sub ≤ 2)
run_delivers_example = run_delivers 2 subscriber_calls (omega arith) (omega arith)

abbrev with_queue : AppState Json
with_queue = record first_state { write_queue = some (empty 1) }

-- A request with this body and the parameter `from=12`.
abbrev posted : Bytes → Request
posted body = record {
  method = bytes "POST";
  path = bytes "/events";
  body = body;
  header = λ name. none;
  param = λ name. some (to_string 12);
}

submit_event-Submitted_example :
    Submitted sample with_queue 5
      (posted (bytes "{}"))
      (submit_event sample with_queue 5 (posted (bytes "{}")))
submit_event-Submitted_example = submit_event-Submitted sample with_queue 5 (posted (bytes "{}"))

select_lem_example :
    let to = min 9 1 in
    ((1 ≤ to)
      × ((slice : List ℕ) × (select {A = ℕ} (4 ∷ 5 ∷ []) 1 9 ≡ ok (slice, 2))
          × (length slice ≡ to - 1 + 1)
          × ((i : ℕ) → 1 + i ≤ to → get_elem? slice i ≡ get_elem? {A = ℕ} (4 ∷ 5 ∷ []) (1 + i))))
    ⊎ ((to < 1) × ((m : Bytes) × (select {A = ℕ} (4 ∷ 5 ∷ []) 1 9 ≡ err (api_error 400 m))))
select_lem_example = select_lem {A = ℕ} (4 ∷ 5 ∷ []) 1 9 (omega arith) (omega arith)

-- A stop between `attach` and `listen` is missed, and the server still exists.
abbrev server_calls : List Stopping.Call
server_calls = Stopping.begins 1 ∷ Stopping.stops ∷ Stopping.listens ∷ []

run_stops_example :
    let w = Stopping.run Stopping.start server_calls in
    All OnlyAlive w.stops_made
    × ((s : ℕ) → w.alive ≡ some s → (w.told ≡ true) ⊎ All (Missed s) w.stops_made)
run_stops_example = run_stops server_calls
