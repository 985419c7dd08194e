-- ===== src/Examples/Draining.antt =====
-- The drain of the write queue at two queued requests.
use iot_devices_ledger_audit.Prelude.{◌≡◌, refl, true, List, [], ◌∷◌, some}
use iot_devices_ledger_audit.Json.Sample.{sample}
use iot_devices_ledger_audit.Queue.{WriteQueue}
use iot_devices_ledger_audit.Writer.{Writer, WriteRequest, Surroundings, run_thread}
use iot_devices_ledger_audit.Writer.Request.{Inv}
use iot_devices_ledger_audit.Writer.Thread.{Answered, run_thread_drains}
use iot_devices_ledger_audit.Examples.Data.{Json, valve_opened, first_writer, calm, disk_full}
use iot_devices_ledger_audit.Examples.Facts.{first_sound}

abbrev closed_queue : WriteQueue (WriteRequest Json)
closed_queue = record {
  items =
      record { event = valve_opened; respond_to = 7 }
      ∷ record { event = valve_opened; respond_to = 8 }
      ∷ [];
  capacity = 256;
  closed = true;
}

abbrev three_rounds : List Surroundings
three_rounds = calm ∷ disk_full ∷ calm ∷ []

first_writer-Inv : Inv sample first_writer.state first_writer.log
unfolding first_writer
first_writer-Inv = first_sound

run_thread_drains_example :
    (w' : Writer Json) × (run_thread sample three_rounds first_writer closed_queue
      ≡ some (true, w', record closed_queue { items = [] }))
    × Answered sample first_writer w' closed_queue.items
run_thread_drains_example =
    run_thread_drains sample three_rounds first_writer closed_queue first_writer-Inv refl refl
