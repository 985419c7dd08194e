-- ===== src/Examples/Pumping.antt =====
-- A pump that waits while blocks are published and its subscription is closed.
use iot_devices_ledger_audit.Prelude.{
  ◌+◌, ◌*◌, ◌≤◌, ◌≡◌, ◌⊎◌, refl, Bool, true, false, List, [], ◌∷◌, some, length, arith,
}
use iot_devices_ledger_audit.Json.Sample.{sample}
use iot_devices_ledger_audit.Broadcast.{new, push, next, close}
use iot_devices_ledger_audit.Feed.Waiting.{
  Pump, Move, asleep, pushes, closes, looks, begin, step, run,
}
use iot_devices_ledger_audit.Feed.Rested.{effort}
use iot_devices_ledger_audit.Feed.Wakeups.{Finished, Falls, next_move, pump_wakes, pump_joins}
use iot_devices_ledger_audit.Examples.Data.{Json, second_block}

abbrev sleeping : Pump Json
sleeping = record (begin 2) { place = asleep }

-- The block was pushed and the subscription closed, and no notification was sent yet.
abbrev closed_pump : Pump Json
closed_pump = record sleeping {
  sub = record { buffer = second_block ∷ []; capacity = 2; lagged = 0; closed = true };
  owed_one = 1;
  owed_all = true;
}

abbrev until_closed : List (Move Json)
until_closed = looks ∷ pushes second_block ∷ closes ∷ []

falls_asleep : run sample (begin 2) (looks ∷ []) ≡ some sleeping
unfolding run step next new
falls_asleep = refl

is_closed : run sample (begin 2) until_closed ≡ some closed_pump
unfolding run step next new push close
is_closed = refl

pump_wakes_example : (sleeping.sub.closed ≡ false) × (sleeping.sub.buffer ≡ [])
pump_wakes_example =
    pump_wakes sample 2 (looks ∷ []) sleeping (omega arith) falls_asleep refl refl refl

pump_joins_example :
    (effort closed_pump ≤ 2 * length closed_pump.sub.buffer + 2)
    × ((alive : Bool)
        → Finished sample closed_pump.place
          ⊎ Falls sample closed_pump (next_move sample alive closed_pump.place))
    × ((ys : List (Move Json))
        → (p' : Pump Json) × (run sample closed_pump ys ≡ some p')
          × (p'.sub.closed ≡ true)
          × (effort p' ≤ effort closed_pump))
pump_joins_example = pump_joins sample 2 until_closed closed_pump (omega arith) is_closed refl
