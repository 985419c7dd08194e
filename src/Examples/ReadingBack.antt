-- ===== src/Examples/ReadingBack.antt =====
-- A block that was posted is read back.
use iot_devices_ledger_audit.Prelude.{◌≡◌, none, refl, [], ◌∷◌, some, ok, length, map, arith}
use iot_devices_ledger_audit.Prelude.Bytes.{Bytes, bytes}
use iot_devices_ledger_audit.Prelude.Decimal.{to_string}
use iot_devices_ledger_audit.Json.Sample.{sample, sample_feed_laws}
use iot_devices_ledger_audit.Block.{block_to_json}
use iot_devices_ledger_audit.Chain.{push_persisted}
use iot_devices_ledger_audit.Server.{Request, json_response, finish_event, get_blocks}
use iot_devices_ledger_audit.System.{System, Phase, Steps, WriterStep, writes, here, later}
use iot_devices_ledger_audit.System.ReadBack.{read_your_write}
use iot_devices_ledger_audit.Process.{threads}
use iot_devices_ledger_audit.Examples.Data.{Json, second_block, first_chain, first_log}
use iot_devices_ledger_audit.Examples.Facts.{first_healthy}
use iot_devices_ledger_audit.Examples.Running.{asked}
use iot_devices_ledger_audit.Examples.Restarting.{ready}
use iot_devices_ledger_audit.Examples.Subscribing.{told_client, to_told, ready-Begins, ready-Inv}

abbrev pub replied : System Json
replied = record told_client { phase = Phase.idle; replies = (asked, ok second_block) ∷ [] }

pub to_replied : Steps sample (threads ready first_log) replied
to_replied = later to_told (writes (WriterStep.replies asked second_block refl))

abbrev ask : Request
ask = record {
  method = bytes "GET";
  path = bytes "/blocks";
  body = [];
  header = λ name. none;
  param = λ name. some (to_string second_block.index);
}

read_your_write_example :
    (second_block.event ≡ asked.event)
    × ((text : Bytes) × (finish_event sample (ok second_block) ≡ ok (json_response (some 201) text))
        × (sample.dump (block_to_json sample second_block) ≡ ok text))
    × ((body : Bytes) × (get_blocks sample replied.app ask ≡ ok (json_response none body))
        × (sample.dump (
              sample.of_fields (
                (bytes "blocks", sample.of_list (map (block_to_json sample) (second_block ∷ [])))
                ∷ (bytes "chain_length", sample.of_uint (length replied.app.chain.blocks))
                ∷ []))
            ≡ ok body))
unfolding push_persisted first_chain
read_your_write_example =
    read_your_write sample (threads ready first_log) ready-Begins ready-Inv first_healthy replied
      replied to_replied here asked second_block [] [] refl (omega arith) sample_feed_laws ask refl
      refl
