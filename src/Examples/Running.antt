-- ===== src/Examples/Running.antt =====
-- The interleaved threads: a state that the writer reaches, and the properties at it.
use iot_devices_ledger_audit.Prelude.{
  ◌≡◌, ◌⊎◌, ◌≤◌, ◌+◌, ◌*◌, refl, false, List, [], ◌∷◌, ◌++◌, none, some, ok, All, length,
}
use iot_devices_ledger_audit.Prelude.Bytes.{bytes, str_eq}
use iot_devices_ledger_audit.Json.Sample.{sample}
use iot_devices_ledger_audit.Block.{
  Block, event_to_json, event_from_json, make_block, compute_hash, hash_input,
}
use iot_devices_ledger_audit.Chain.{verify, size, push_persisted, latest}
use iot_devices_ledger_audit.Chain.Verdict.{passed}
use iot_devices_ledger_audit.Storage.{append_block, write}
use iot_devices_ledger_audit.Queue.{WriteQueue, empty, push, pop}
use iot_devices_ledger_audit.Queue
use iot_devices_ledger_audit.Writer.{AppState, WriteRequest, build_next}
use iot_devices_ledger_audit.Writer.Request.{Inv}
use iot_devices_ledger_audit.Server.{Request, validate, parse_event, submit_event, enqueue, pushed}
use iot_devices_ledger_audit.System.{
  System, Phase, WriterStep, Steps, Begins, begins, here, later, writes, submits, closes,
  with_queue,
}
use iot_devices_ledger_audit.System.Invariant.{
  in_hand, written, untold, unanswered, queued, answered, made, Carries,
}
use iot_devices_ledger_audit.System.OnDisk.{OnDisk}
use iot_devices_ledger_audit.System.Safety.{written_ahead, answered_in_order, snapshots_grow}
use iot_devices_ledger_audit.System.Progress.{Alone, stays, goes, writer_goes_on, writer_ends}
use iot_devices_ledger_audit.Process.{threads}
use iot_devices_ledger_audit.Examples.Data.{
  Json, valve_opened, second_block, first_chain, first_log, first_state, text_of, second_log,
}
use iot_devices_ledger_audit.Examples.Facts.{first_healthy, first_sound}

abbrev pub booted : AppState Json
booted = record first_state { write_queue = some (empty 2) }

abbrev at_start : System Json
at_start = threads booted first_log

abbrev pub post : Request
post = record {
  method = bytes "POST";
  path = bytes "/events";
  body = text_of (sample.dump (event_to_json sample valve_opened));
  header = λ name. none;
  param = λ name. none;
}

abbrev pub asked : WriteRequest Json
asked = record { event = valve_opened; respond_to = 7 }

abbrev queue_of : List (WriteRequest Json) → WriteQueue (WriteRequest Json)
queue_of items = record { items = items; capacity = 2; closed = false }

abbrev at_submitted : System Json
at_submitted = record at_start {
  app = with_queue booted (queue_of (asked ∷ []));
  accepted = asked ∷ [];
}

abbrev at_popped : System Json
at_popped = record at_submitted {
  app = with_queue booted (queue_of []);
  phase = Phase.popped asked;
}

abbrev at_pushed : System Json
at_pushed = record at_popped {
  app = record (with_queue booted (queue_of [])) {
    chain = push_persisted booted.chain second_block;
  };
  log = second_log;
  phase = Phase.pushed asked second_block;
}

pub post_valid : validate sample post.body ≡ ok valve_opened
unfolding validate sample parse_event event_to_json event_from_json valve_opened bytes str_eq
post_valid = refl

post_taken : submit_event sample booted 7 post ≡ some (ok at_submitted.app)
unfolding submit_event enqueue pushed push empty
post_taken = rw (post_valid, submit_event)

start-Begins : Begins sample at_start
start-Begins = begins booted first_log 2 refl

start-Inv : Inv sample booted first_log
start-Inv = record {
  tail = first_sound.tail;
  tail_is = first_sound.tail_is;
  intact = first_sound.intact;
  on_disk = first_sound.on_disk;
  hub = first_sound.hub;
}

to_popped : Steps sample at_start at_popped
unfolding pop
to_popped =
    later (later here (submits 7 post valve_opened at_submitted.app post_valid post_taken))
      (writes (WriterStep.pops (queue_of (asked ∷ [])) (queue_of []) asked refl refl refl))

second_built : build_next sample 60 at_popped.app valve_opened ≡ some (ok second_block)
unfolding build_next first_state first_chain latest second_block make_block compute_hash hash_input
    sample size
second_built = refl

pub second_written : append_block sample none first_log second_block ≡ (ok tt, second_log)
unfolding append_block write first_log sample
second_written = refl

to_pushed : Steps sample at_start at_pushed
to_pushed =
    later
      (later (later to_popped (writes (WriterStep.builds asked 60 second_block refl second_built)))
        (writes (WriterStep.appends asked second_block none second_log refl second_written)))
      (writes (WriterStep.pushes asked second_block refl))

written_ahead_example :
    (verify sample at_pushed.app.chain
      ≡ ok (passed (size at_pushed.app.chain) (size at_pushed.app.chain)))
    × (at_pushed.app.chain.blocks
        ≡ booted.chain.blocks
          ++ (made at_pushed.replies ++ (unanswered at_pushed.phase ++ untold at_pushed.phase)))
    × (at_pushed.told ≡ made at_pushed.replies ++ unanswered at_pushed.phase)
    × OnDisk sample at_pushed.log (at_pushed.app.chain.blocks ++ written at_pushed.phase)
written_ahead_example =
    written_ahead sample at_start at_pushed start-Begins start-Inv first_healthy to_pushed

answered_in_order_example :
    (at_pushed.accepted
      ≡ answered at_pushed.replies ++ (in_hand at_pushed.phase ++ queued at_pushed.app.write_queue))
    × All Carries at_pushed.replies
    × (at_pushed.phase ≡ Phase.ended → at_pushed.accepted ≡ answered at_pushed.replies)
answered_in_order_example =
    answered_in_order sample at_start at_pushed start-Begins start-Inv first_healthy to_pushed

snapshots_grow_example :
    (more : List (Block Json)) × (at_pushed.app.chain.blocks ≡ at_start.app.chain.blocks ++ more)
snapshots_grow_example = snapshots_grow sample at_start at_pushed to_pushed

writer_goes_on_example :
    (at_pushed.phase ≡ Phase.ended)
    ⊎ (((at_pushed.phase ≡ Phase.idle)
          × ((queue_of []).items ≡ [])
          × ((queue_of []).closed ≡ false))
        ⊎ ((u : System Json) × WriterStep sample at_pushed u))
writer_goes_on_example =
    writer_goes_on sample at_start at_pushed (queue_of []) start-Begins start-Inv first_healthy
      to_pushed refl

-- The queue is closed while the request is in the writer's hands.
abbrev at_closed : System Json
at_closed = record at_popped { app = with_queue at_popped.app (Queue.close (queue_of [])) }

to_closed : Steps sample at_start at_closed
to_closed = later to_popped (closes (queue_of []) refl)

abbrev at_built : System Json
at_built = record at_closed { phase = Phase.built asked second_block }

one-Alone : Alone sample at_closed 1 at_built
unfolding Queue.close build_next
one-Alone = goes stays (WriterStep.builds asked 60 second_block refl second_built)

writer_ends_example :
    (1 ≤ 6 * length (Queue.close (queue_of [])).items + 6)
    × (((at_built.phase ≡ Phase.ended) × (at_built.accepted ≡ answered at_built.replies))
        ⊎ ((w : System Json) × WriterStep sample at_built w))
unfolding Queue.close
writer_ends_example =
    writer_ends sample at_start at_closed (Queue.close (queue_of [])) start-Begins start-Inv
      first_healthy to_closed refl 1 at_built refl one-Alone
