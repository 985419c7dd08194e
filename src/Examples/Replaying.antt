-- ===== src/Examples/Replaying.antt =====
-- A client subscribes before an event, is handed its block, and ends with the chain.
use iot_devices_ledger_audit.Prelude.{
  ◌≡◌, ◌++◌, refl, false, List, [], ◌∷◌, none, some, ok, length, arith,
}
use iot_devices_ledger_audit.Prelude.Bytes.{Bytes}
use iot_devices_ledger_audit.Json.Sample.{sample, sample_laws, sample_feed_laws}
use iot_devices_ledger_audit.Block.{Block, make_block, compute_hash, hash_input}
use iot_devices_ledger_audit.Broadcast.{
  Broadcaster, Subscription, Item, no_subscribers, lock, next, take_item, subscribe,
}
use iot_devices_ledger_audit.Feed.CatchUp.{catch_up}
use iot_devices_ledger_audit.Feed.Reader.{send_all, read_feed}
use iot_devices_ledger_audit.System.{System, Steps, receives, here, later, with_hub}
use iot_devices_ledger_audit.System.Handed.{handed, subscribed}
use iot_devices_ledger_audit.System.Replay.{client_replays}
use iot_devices_ledger_audit.Process.{threads}
use iot_devices_ledger_audit.Examples.Data.{
  Json, genesis_block, second_block, first_chain, first_log,
}
use iot_devices_ledger_audit.Chain.{push_persisted}
use iot_devices_ledger_audit.Server.{select}
use iot_devices_ledger_audit.Examples.Facts.{first_healthy, second-IsStorable}
use iot_devices_ledger_audit.Examples.Restarting.{ready}
use iot_devices_ledger_audit.Examples.Subscribing.{
  waiting, hub, at_told, told_client, joined_to_told, ready-Begins, ready-Inv,
}

abbrev drained : Subscription (Block Json)
drained = record { buffer = []; capacity = 2; lagged = 0; closed = false }

abbrev drained_hub : Broadcaster (Block Json)
drained_hub = record { cells = some drained ∷ []; subscribers = 0 ∷ [] }

abbrev delivery : Item (Block Json)
delivery = record { block = second_block; lagged = 0 }

abbrev handed_client : System Json
handed_client = record told_client { app = with_hub at_told drained_hub }

abbrev joined : System Json
joined = subscribed sample (threads ready first_log) no_subscribers 2

to_handed : Steps sample joined handed_client
unfolding lock next take_item
to_handed = later joined_to_told (receives hub 0 waiting drained (some delivery) refl refl refl)

-- A lost block is asked for and comes back.
lost_and_found :
    catch_up (genesis_block ∷ second_block ∷ []) (record { block = second_block; lagged = 1 } ∷ [])
    ≡ ok (genesis_block ∷ second_block ∷ [])
unfolding catch_up select second_block make_block compute_hash hash_input sample
lost_and_found = refl

client_replays_example :
    (frames : List Bytes) × (got : List (Block Json)) × (lost : List (Block Json)) × (rest : List
      (Block Json))
    × (send_all sample (handed sample 0 joined handed_client to_handed) [] ≡ (none, frames))
    × (read_feed sample 0 frames ≡ ok (handed sample 0 joined handed_client to_handed))
    × (catch_up handed_client.app.chain.blocks (handed sample 0 joined handed_client to_handed)
        ≡ ok got)
    × (handed_client.told ≡ got ++ (lost ++ (drained.buffer ++ rest)))
    × (length lost ≡ drained.lagged)
    × (drained.closed ≡ false → rest ≡ [])
unfolding lock subscribe push_persisted first_chain
client_replays_example =
    client_replays sample (threads ready first_log) ready-Begins ready-Inv first_healthy refl
      (threads ready first_log) no_subscribers 2 here refl (omega arith) handed_client handed_client
      to_handed drained_hub drained here refl refl (omega arith) sample_laws sample_feed_laws
      (second-IsStorable.exact, tt)
