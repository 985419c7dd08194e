-- ===== src/Examples/Auditing.antt =====
-- An audit after a block was posted.
use iot_devices_ledger_audit.Prelude.{none, ◌+◌, ◌≡◌, ◌⊎◌, suc, true, [], ◌∷◌, ok, length, arith}
use iot_devices_ledger_audit.Prelude.Bytes.{Bytes, bytes}
use iot_devices_ledger_audit.Json.Sample.{sample, sample_feed_laws}
use iot_devices_ledger_audit.Block.{now_rfc3339}
use iot_devices_ledger_audit.Chain.{size, push_persisted}
use iot_devices_ledger_audit.Server.{json_response, get_verify}
use iot_devices_ledger_audit.System.Invariant.{made}
use iot_devices_ledger_audit.System.Audit.{audit_passes}
use iot_devices_ledger_audit.Process.{threads}
use iot_devices_ledger_audit.Examples.Data.{first_chain, first_log}
use iot_devices_ledger_audit.Examples.Facts.{first_healthy}
use iot_devices_ledger_audit.Examples.Restarting.{ready}
use iot_devices_ledger_audit.Examples.Subscribing.{ready-Begins, ready-Inv}
use iot_devices_ledger_audit.Examples.ReadingBack.{replied, to_replied}

audit_passes_example :
    ((body : Bytes) × (get_verify sample replied.app 1709210096 ≡ ok (json_response none body))
      × (sample.dump (
            sample.of_fields (
              (bytes "valid", sample.of_bool true)
              ∷ (bytes "chain_length", sample.of_uint (size replied.app.chain))
              ∷ (bytes "checked_blocks", sample.of_uint (size replied.app.chain))
              ∷ (bytes "first_invalid_index", sample.null)
              ∷ (bytes "verified_at", sample.of_str (now_rfc3339 1709210096))
              ∷ []))
          ≡ ok body))
    × ((size replied.app.chain
          ≡ length (threads ready first_log).app.chain.blocks + length (made replied.replies))
        ⊎ (size replied.app.chain
            ≡ suc (
                length (threads ready first_log).app.chain.blocks + length (made replied.replies))))
unfolding size push_persisted first_chain
audit_passes_example =
    audit_passes sample (threads ready first_log) ready-Begins ready-Inv first_healthy replied
      to_replied sample_feed_laws 1709210096 (omega arith)
