-- ===== src/Examples/Writing.antt =====
-- The properties of the storage and of the writer on a concrete log.
use iot_devices_ledger_audit.Prelude.{
  ℕ, ◌≡◌, ◌⊎◌, ◌∷◌, [], ◌++◌, refl, true, false, List, none, some, Result, ok, err, All,
}
use iot_devices_ledger_audit.Prelude.Bytes.{Bytes}
use iot_devices_ledger_audit.Json.Sample.{sample, sample_laws}
use iot_devices_ledger_audit.Error.{Exception, json_error}
use iot_devices_ledger_audit.Block.{Block, compute_hash, hash_input, make_block}
use iot_devices_ledger_audit.Chain.{latest, push_persisted, load, fresh, verify, size}
use iot_devices_ledger_audit.Chain.Verdict.{passed}
use iot_devices_ledger_audit.Storage.{
  seen, open_append, write, load_loop, parse_line, Stream, append_block, load_chain, lines,
  malformed,
}
use iot_devices_ledger_audit.Storage.Reload.{IsStorable, append_all, append_all-load_chain}
use iot_devices_ledger_audit.Storage.Malformed.{
  NamesLine, Parses, load_chain-error, load_chain-Parses,
}
use iot_devices_ledger_audit.Writer.{
  build_next, persisted, push_reply, fan_out, replied, AppState, Writer, WriteRequest, Surroundings,
  handle_request, writer_loop,
}
use iot_devices_ledger_audit.Writer.Request.{Inv, Handled, handle_request_lem}
use iot_devices_ledger_audit.Writer.Loop.{
  Served, blocks_in, promises, requested, writer_loop-Served, writer_loop_durable,
  writer_loop_stuck,
}
use iot_devices_ledger_audit.Broadcast.{no_subscribers}
use iot_devices_ledger_audit.Startup.{is_fresh, boot}
use iot_devices_ledger_audit.Startup.Boot.{fresh_file, boot_lem}
use iot_devices_ledger_audit.Examples.Data.{
  quiet, second_log, no_file, Json, valve_opened, genesis_block, second_block, first_chain,
  second_chain, first_log, first_state, first_writer, calm, two_requests,
}
use iot_devices_ledger_audit.Examples.Facts.{
  fresh_none, second_healthy, first-Encodes, first_sound, genesis-IsStorable, second-IsStorable,
}

first_writer_sound : Inv sample first_writer.state first_writer.log
unfolding first_writer
first_writer_sound = first_sound

writer_loop-Served_example :
    (w' : Writer Json) × (writer_loop sample first_writer two_requests ≡ some w')
    × Served sample first_writer w' two_requests
writer_loop-Served_example = writer_loop-Served sample first_writer two_requests first_writer_sound

handle_request_lem_example :
    (reply : Result Exception (Block Json)) × (s' : AppState Json) × (os' : Stream)
    × (handle_request sample calm first_state first_log valve_opened ≡ some (reply, s', os'))
    × Handled sample calm valve_opened first_state first_log reply s' os'
    × Inv sample s' os'
handle_request_lem_example =
    handle_request_lem sample calm valve_opened first_state first_log first_sound

-- One request, which the disk takes.
abbrev one_request : List (Surroundings × WriteRequest Json)
one_request = (calm, record { event = valve_opened; respond_to = 7 }) ∷ []

-- A writer without a broadcaster, before and after the request.
abbrev quiet_writer : Writer Json
quiet_writer = record { state = quiet first_chain; log = first_log; replies = [] }

abbrev second_writer : Writer Json
second_writer = record {
  state = quiet second_chain;
  log = second_log;
  replies = (7, ok second_block) ∷ [];
}

quiet_sound : Inv sample quiet_writer.state quiet_writer.log
unfolding first_chain first_state
quiet_sound = record {
  tail = first_sound.tail;
  tail_is = first_sound.tail_is;
  intact = first_sound.intact;
  on_disk = λ _. first-Encodes;
  hub = tt;
}

second_written : writer_loop sample quiet_writer one_request ≡ some second_writer
unfolding writer_loop handle_request build_next first_chain second_chain second_block make_block
    compute_hash hash_input sample persisted append_block first_log push_reply latest push_persisted
    size write fan_out replied
second_written = refl

second_stored : All (IsStorable sample sample_laws) second_chain.blocks
unfolding second_chain
second_stored = (genesis-IsStorable, (second-IsStorable, tt))

writer_loop_durable_example :
    (load_chain sample 90 (some second_writer.log.contents) ≡ ok second_writer.state.chain)
    × (verify sample second_writer.state.chain
        ≡ ok (passed (size second_writer.state.chain) (size second_writer.state.chain)))
writer_loop_durable_example =
    writer_loop_durable sample sample_laws quiet_writer second_writer one_request 90 quiet_sound
      second_written second_healthy second_stored

-- A log that an earlier write has left failed.
abbrev broken_writer : Writer Json
broken_writer = record first_writer { log = record first_log { failed = true } }

broken_sound : Inv sample broken_writer.state broken_writer.log
broken_sound = record {
  tail = first_writer_sound.tail;
  tail_is = first_writer_sound.tail_is;
  intact = first_writer_sound.intact;
  on_disk = λ h. absurd (cc h);
  hub = first_writer_sound.hub;
}

writer_loop_stuck_example :
    (w' : Writer Json) × (new : List (ℕ × Result Exception (Block Json))) × (writer_loop sample
        broken_writer two_requests
      ≡ some w')
    × (w'.state ≡ broken_writer.state)
    × (w'.log ≡ broken_writer.log)
    × (w'.replies ≡ broken_writer.replies ++ new)
    × (promises new ≡ requested two_requests)
    × (blocks_in new ≡ [])
writer_loop_stuck_example = writer_loop_stuck sample broken_writer two_requests broken_sound refl

second_appended : append_all sample ((none, second_block) ∷ []) first_log ≡ (ok tt, second_log)
unfolding append_all first_log second_block append_block write sample
second_appended = refl

append_all-load_chain_example :
    load_chain sample 90 (some second_log.contents) ≡ ok (load (genesis_block ∷ second_block ∷ []))
append_all-load_chain_example =
    append_all-load_chain sample sample_laws ((none, second_block) ∷ []) first_log second_log
      (genesis_block ∷ []) 90 first-Encodes second_appended (λ h. cc h)
      (genesis-IsStorable, (second-IsStorable, tt))

-- A file of one empty line.
abbrev blank_line : Bytes
blank_line = 10 ∷ []

blank_refused : load_chain sample 90 (some blank_line) ≡ err (malformed sample 1 (4 ∷ []))
unfolding load_chain sample load_loop lines parse_line
blank_refused = refl

load_chain-error_example :
    NamesLine sample 0 (lines blank_line) (malformed sample 1 (4 ∷ []))
    ⊎ ((lines blank_line ≡ [])
        × ((m : Bytes) × (fresh sample 90 ≡ err m) × (malformed sample 1 (4 ∷ []) ≡ json_error m)))
load_chain-error_example =
    load_chain-error sample 90 blank_line (malformed sample 1 (4 ∷ [])) blank_refused

second_loads : load_chain sample 90 (some second_writer.log.contents) ≡ ok second_writer.state.chain
second_loads = writer_loop_durable_example.0

load_chain-Parses_example :
    Parses sample (lines second_writer.log.contents) second_writer.state.chain.blocks
    ⊎ ((lines second_writer.log.contents ≡ []) × (fresh sample 90 ≡ ok second_writer.state.chain))
load_chain-Parses_example =
    load_chain-Parses sample 90 second_writer.log.contents second_writer.state.chain second_loads

boot_lem_example :
    ((e : Exception) × (boot sample 0 none no_file ≡ some (err e))
      × ((open_append no_file ≡ err e) ⊎ (is_fresh no_file.file ≡ true)))
    ⊎ ((s : AppState Json) × (log : Stream) × (boot sample 0 none no_file ≡ some (ok (s, log)))
        × Inv sample s log
        × (log.failed ≡ false)
        × (s.broadcaster ≡ some no_subscribers))
boot_lem_example = boot_lem sample sample_laws 0 none no_file (record {
  ready = fresh_file none fresh_none;
  is_sized = unfold seen in refl;
  is_readable = unfold seen in refl;
})
