-- ===== src/Examples/Data.antt =====
-- Concrete values over the library of `Json.Sample`.
use iot_devices_ledger_audit.Prelude.{true, false, List, [], ◌∷◌, none, some, Result, ok, err}
use iot_devices_ledger_audit.Prelude.Bytes.{Bytes, bytes}
use iot_devices_ledger_audit.Json.Sample.{sample}
use iot_devices_ledger_audit.Block.{EventPayload, Block, make_block, zero_hash, genesis_event}
use iot_devices_ledger_audit.Chain.{Chain}
use iot_devices_ledger_audit.Storage.{Disk, Stream, append_block}
use iot_devices_ledger_audit.Broadcast.{Broadcaster, no_subscribers, subscribe}
use iot_devices_ledger_audit.Writer.{AppState, Writer, WriteRequest, Surroundings}

abbrev pub Json : Type 0
Json = sample.Json

unfoldable pub valve_opened : EventPayload Json
valve_opened = record {
  event_type = bytes "VALVE_OPENED";
  location_id = bytes "hq";
  actor = bytes "esp32";
  description = bytes "line one";
  metadata = sample.of_uint 3;
}

unfoldable pub nobody : Block Json
nobody = record { index = 0; timestamp = []; event = valve_opened; prev_hash = []; hash = [] }

unfoldable pub made : Result Bytes (Block Json) → Block Json
unfolding nobody
made (ok b) = b
made (err m) = nobody

-- The genesis block at the epoch, and a block after it.
unfoldable pub genesis_block : Block Json
unfolding made
genesis_block = made (make_block sample 0 0 (genesis_event sample) zero_hash)

unfoldable pub second_block : Block Json
unfolding made
second_block = made (make_block sample 60 1 valve_opened genesis_block.hash)

unfoldable pub first_chain : Chain Json
first_chain = record { blocks = genesis_block ∷ [] }

unfoldable pub second_chain : Chain Json
second_chain = record { blocks = genesis_block ∷ second_block ∷ [] }

abbrev pub empty_log : Stream
empty_log = record { contents = []; failed = false }

unfoldable pub first_log : Stream
first_log = (append_block sample none empty_log genesis_block).1

abbrev pub second_log : Stream
second_log = (append_block sample none first_log second_block).1

abbrev pub text_of : Result Bytes Bytes → Bytes
text_of (ok s) = s
text_of (err s) = []

unfoldable pub one_subscriber : Broadcaster (Block Json)
one_subscriber = (subscribe no_subscribers 1).1

unfoldable pub first_state : AppState Json
first_state = record { chain = first_chain; write_queue = none; broadcaster = some one_subscriber }

unfoldable pub first_writer : Writer Json
first_writer = record { state = first_state; log = first_log; replies = [] }

abbrev pub calm : Surroundings
calm = record { now = 60; disk = none }

abbrev pub disk_full : Surroundings
disk_full = record { now = 61; disk = some 5 }

unfoldable pub two_requests : List (Surroundings × WriteRequest Json)
two_requests =
    (calm, record { event = valve_opened; respond_to = 7 })
    ∷ (disk_full, record { event = valve_opened; respond_to = 8 })
    ∷ []

-- A path of no directory and no file.
abbrev pub no_file : Disk
no_file = record {
  path = bytes "ledger.log";
  parent = none;
  mkdir_error = none;
  opens = true;
  sized = true;
  readable = true;
  file = none;
}

-- A state without a broadcaster.
abbrev pub quiet : Chain Json → AppState Json
quiet chain = record { chain = chain; write_queue = none; broadcaster = none }
