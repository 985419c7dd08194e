-- ===== src/Examples/Restarting.antt =====
-- A run of the process that answers one request, and what the next start finds.
use iot_devices_ledger_audit.Prelude.{
  Bool, All, ◌≡◌, refl, false, true, List, [], ◌∷◌, Option, none, some, ok,
}
use iot_devices_ledger_audit.Prelude.Bytes.{Bytes, bytes, str_eq}
use iot_devices_ledger_audit.Prelude.Decimal.{value}
use iot_devices_ledger_audit.Json.Sample.{sample, sample_laws}
use iot_devices_ledger_audit.Block.{make_block, compute_hash, hash_input, genesis}
use iot_devices_ledger_audit.Chain.{push_persisted, latest, size, fresh}
use iot_devices_ledger_audit.Log.{default_logger, info, level_from}
use iot_devices_ledger_audit.Storage.Reload.{IsStorable}
use iot_devices_ledger_audit.Prelude.Int.{pos}
use iot_devices_ledger_audit.Config.{Config, load_config, parse_address, rfind, env_or, stoi}
use iot_devices_ledger_audit.Storage.{
  seen, Disk, open_append, load_chain, load_loop, lines, or_fresh, fresh_chain, append_block,
}
use iot_devices_ledger_audit.Queue.{WriteQueue, empty, push, pop, default_capacity}
use iot_devices_ledger_audit.Queue
use iot_devices_ledger_audit.Broadcast.{no_subscribers, close_all, publish}
use iot_devices_ledger_audit.Writer.{AppState, WriteRequest, build_next, fan_out}
use iot_devices_ledger_audit.Server.{detached, attach, submit_event, enqueue, pushed}
use iot_devices_ledger_audit.Server.Serve.{serve}
use iot_devices_ledger_audit.Startup.{boot, is_fresh}
use iot_devices_ledger_audit.Startup.Boot.{fresh_file}
use iot_devices_ledger_audit.System.{
  System, Phase, WriterStep, Steps, here, later, submits, with_queue, with_hub,
}
use iot_devices_ledger_audit.System.Progress.{Alone, stays, goes}
use iot_devices_ledger_audit.Process.{threads, Joined, joined, Ran, served, exit_code}
use iot_devices_ledger_audit.Process.Restart.{Booted, Settled, run_settles, run_restarts}
use iot_devices_ledger_audit.Examples.Data.{
  Json, valve_opened, second_block, first_chain, first_log, second_log, no_file, genesis_block,
}
use iot_devices_ledger_audit.Examples.Facts.{
  fresh_none, second_healthy, genesis-IsStorable, second-IsStorable,
}
use iot_devices_ledger_audit.Examples.Running.{post, post_valid, asked, second_written}

abbrev pub ready : AppState Json
ready = record {
  chain = first_chain;
  write_queue = some (empty default_capacity);
  broadcaster = some no_subscribers;
}

abbrev no_env : Bytes → Option Bytes
no_env key = none

abbrev new_disk : Bytes → Disk
new_disk path = no_file

ready_booted : boot sample 0 none no_file ≡ some (ok (ready, first_log))
unfolding boot load_chain fresh_chain load_loop or_fresh lines fresh genesis make_block compute_hash
    hash_input sample open_append seen is_fresh latest append_block first_chain first_log
    genesis_block
ready_booted = refl

abbrev pub holding : Bool → List (WriteRequest Json) → WriteQueue (WriteRequest Json)
holding closed items = record { items = items; capacity = default_capacity; closed = closed }

abbrev on_start : System Json
on_start = threads ready first_log

-- One request is queued when the queue is closed.
abbrev on_submit : System Json
on_submit = record on_start {
  app = with_queue ready (holding false (asked ∷ []));
  accepted = asked ∷ [];
}

abbrev on_exit : System Json
on_exit = record on_submit {
  app =
      with_queue (record ready { chain = push_persisted first_chain second_block })
        (holding true []);
  log = second_log;
  phase = Phase.ended;
  replies = (asked, ok second_block) ∷ [];
  told = second_block ∷ [];
}

ready_taken : submit_event sample ready 7 post ≡ some (ok on_submit.app)
unfolding submit_event enqueue pushed push empty
ready_taken = rw (post_valid, submit_event)

to_submit : Steps sample on_start on_submit
to_submit = later here (submits 7 post valve_opened on_submit.app post_valid ready_taken)

ready_built :
    build_next sample 60 (with_queue ready (holding true [])) valve_opened ≡ some (ok second_block)
unfolding build_next first_chain latest second_block make_block compute_hash hash_input sample size
ready_built = refl

to_exit :
    Alone sample
      (record on_submit { app = with_queue on_submit.app (holding true (asked ∷ [])) })
      7
      on_exit
unfolding pop fan_out publish
to_exit =
    goes
      (goes
        (goes
          (goes
            (goes
              (goes
                (goes stays (
                  WriterStep.pops (holding true (asked ∷ [])) (holding true []) asked refl refl
                    refl))
                (WriterStep.builds asked 60 second_block refl ready_built))
              (WriterStep.appends asked second_block none second_log refl second_written))
            (WriterStep.pushes asked second_block refl))
          (WriterStep.publishes asked second_block on_exit.app refl refl))
        (WriterStep.replies asked second_block refl))
      (WriterStep.ends (holding true []) (holding true []) refl refl refl)

submit-Joined : Joined sample on_submit on_exit
unfolding Queue.close
submit-Joined = joined (holding false (asked ∷ [])) 7 on_exit refl to_exit refl

abbrev config : Config
config = record {
  bind_host = bytes "0.0.0.0";
  bind_port = pos 8080;
  ws_host = bytes "0.0.0.0";
  ws_port = pos 8081;
  ledger_path = bytes "./data/ledger.log";
  log_level = info;
}

configured : load_config no_env ≡ ok config
unfolding load_config parse_address rfind env_or bytes stoi value level_from str_eq
configured = refl

abbrev at_rest : System Json
at_rest = record on_exit { app = with_hub on_exit.app (close_all no_subscribers) }

one-Ran : Ran sample no_env new_disk 0 (some at_rest)
unfolding exit_code serve attach
one-Ran =
    served config 0 none ready first_log detached (λ n. n) 1
      (record { ok = true; stops = 1; logged = [] }) default_logger on_submit on_exit no_subscribers
      configured ready_booted to_submit submit-Joined refl

run_settles_example :
    (o : Booted sample sample_laws no_env new_disk) × Settled sample sample_laws o.app at_rest
run_settles_example =
    run_settles sample sample_laws no_env new_disk 0 at_rest
      (λ path. record {
        ready = fresh_file none fresh_none;
        is_sized = unfold seen in refl;
        is_readable = unfold seen in refl;
      })
      one-Ran

abbrev left_disk : Disk
left_disk = record no_file { file = some second_log.contents }

left_opens : open_append left_disk ≡ ok second_log
unfolding open_append append_block sample first_log
left_opens = refl

rest-IsStorable : All (IsStorable sample sample_laws) at_rest.app.chain.blocks
unfolding first_chain push_persisted
rest-IsStorable = (genesis-IsStorable, (second-IsStorable, tt))

run_restarts_example :
    (app : AppState Json) × (boot sample 90 none left_disk ≡ some (ok (app, second_log)))
    × (app.chain ≡ at_rest.app.chain)
run_restarts_example =
    run_restarts sample sample_laws no_env new_disk 0 at_rest
      (λ path. record {
        ready = fresh_file none fresh_none;
        is_sized = unfold seen in refl;
        is_readable = unfold seen in refl;
      })
      one-Ran second_healthy rest-IsStorable 90 none left_disk second_log refl refl refl left_opens
