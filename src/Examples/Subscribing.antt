-- ===== src/Examples/Subscribing.antt =====
-- A client subscribes before an event, and the event's block waits for it.
use iot_devices_ledger_audit.Prelude.{
  ◌≡◌, ◌++◌, refl, false, true, List, [], ◌∷◌, none, some, ok, arith,
}
use iot_devices_ledger_audit.Json.Sample.{sample}
use iot_devices_ledger_audit.Block.{Block, make_block, compute_hash, hash_input}
use iot_devices_ledger_audit.Chain.{push_persisted, latest, size}
use iot_devices_ledger_audit.Queue.{push, pop, empty}
use iot_devices_ledger_audit.Broadcast.{
  Broadcaster, Subscription, no_subscribers, subscribe, lock, publish, new,
}
use iot_devices_ledger_audit.Broadcast
use iot_devices_ledger_audit.Broadcast.Ids.{mem}
use iot_devices_ledger_audit.Broadcast.Sound.{no_subscribers-IsSound}
use iot_devices_ledger_audit.Writer.{AppState, build_next, fan_out}
use iot_devices_ledger_audit.Writer.Request.{Inv}
use iot_devices_ledger_audit.Server.{submit_event, enqueue, pushed}
use iot_devices_ledger_audit.System.{
  System, Phase, WriterStep, Steps, Begins, begins, here, later, writes, submits, subscribes,
  with_queue, with_hub,
}
use iot_devices_ledger_audit.System.Invariant.{untold}
use iot_devices_ledger_audit.System.Clients.{buffers_current}
use iot_devices_ledger_audit.System.Handed.{subscribed, Steps-append}
use iot_devices_ledger_audit.Process.{threads}
use iot_devices_ledger_audit.Examples.Data.{
  Json, valve_opened, first_state, second_block, first_chain, first_log, second_log,
}
use iot_devices_ledger_audit.Examples.Facts.{first_sound, first_healthy}
use iot_devices_ledger_audit.Examples.Running.{post, post_valid, asked, second_written}
use iot_devices_ledger_audit.Examples.Restarting.{ready, holding}

abbrev listening : AppState Json
listening = with_hub ready (subscribe no_subscribers 2).1

abbrev at_asked : AppState Json
at_asked = with_queue listening (holding false (asked ∷ []))

abbrev at_taken : AppState Json
at_taken = with_queue listening (holding false [])

-- The block waits for the client.
abbrev pub waiting : Subscription (Block Json)
waiting = record { buffer = second_block ∷ []; capacity = 2; lagged = 0; closed = false }

abbrev pub hub : Broadcaster (Block Json)
hub = record { cells = some waiting ∷ []; subscribers = 0 ∷ [] }

abbrev pub at_told : AppState Json
at_told = with_hub (record at_taken { chain = push_persisted first_chain second_block }) hub

abbrev pub told_client : System Json
told_client = record {
  app = at_told;
  log = second_log;
  phase = Phase.published asked second_block;
  accepted = asked ∷ [];
  replies = [];
  told = second_block ∷ [];
}

asked_taken : submit_event sample listening 7 post ≡ some (ok at_asked)
unfolding submit_event enqueue pushed push empty
asked_taken = rw (post_valid, submit_event)

taken_built : build_next sample 60 at_taken valve_opened ≡ some (ok second_block)
unfolding build_next first_chain latest second_block make_block compute_hash hash_input sample size
taken_built = refl

block_told :
    fan_out sample
      (record at_taken { chain = push_persisted first_chain second_block })
      second_block
    ≡ some at_told
unfolding fan_out publish subscribe new Broadcast.push lock Broadcast.prune
block_told = refl

-- From the subscription to the publication.
pub joined_to_told :
    Steps sample (subscribed sample (threads ready first_log) no_subscribers 2) told_client
unfolding pop
joined_to_told =
    later
      (later
        (later
          (later
            (later (later here (submits 7 post valve_opened at_asked post_valid asked_taken)) (
              writes (
                WriterStep.pops (holding false (asked ∷ [])) (holding false []) asked refl refl
                  refl)))
            (writes (WriterStep.builds asked 60 second_block refl taken_built)))
          (writes (WriterStep.appends asked second_block none second_log refl second_written)))
        (writes (WriterStep.pushes asked second_block refl)))
      (writes (WriterStep.publishes asked second_block at_told refl block_told))

pub to_told : Steps sample (threads ready first_log) told_client
to_told =
    Steps-append sample _ (subscribed sample (threads ready first_log) no_subscribers 2) told_client
      (later here (subscribes no_subscribers 2 refl (omega arith))) joined_to_told

pub ready-Begins : Begins sample (threads ready first_log)
ready-Begins = begins ready first_log 256 refl

pub ready-Inv : Inv sample ready first_log
unfolding first_state
ready-Inv = record {
  tail = first_sound.tail;
  tail_is = first_sound.tail_is;
  intact = first_sound.intact;
  on_disk = first_sound.on_disk;
  hub = no_subscribers-IsSound;
}

buffers_current_example :
    (mem 0 hub.subscribers ≡ true)
    × ((before : List (Block Json)) × (told_client.app.chain.blocks
          ≡ before ++ (waiting.buffer ++ untold told_client.phase)))
unfolding lock
buffers_current_example =
    buffers_current sample (threads ready first_log) ready-Begins ready-Inv first_healthy refl
      told_client hub 0 waiting to_told refl refl refl
