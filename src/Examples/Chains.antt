-- ===== src/Examples/Chains.antt =====
-- The properties of blocks and chains at concrete blocks.
use iot_devices_ledger_audit.Prelude.{
  ◌<◌, ◌≤◌, err, take, length, ◌≡◌, ◌⊎◌, ◌↔◌, refl, List, [], ◌∷◌, ◌++◌, some, ok, arith, ◌^◌, ◌+◌,
  ◌%◌,
}
use iot_devices_ledger_audit.Prelude.Bytes.{Bytes, bytes, str_eq}
use iot_devices_ledger_audit.Prelude.Decimal.{to_string}
use iot_devices_ledger_audit.Json.Sample.{sample, sample_laws}
use iot_devices_ledger_audit.Block.{
  Block, compute_hash, hash_input, make_block, zero_hash, block_to_json, now_rfc3339, genesis_event,
  hex, index_bytes, event_to_json,
}
use iot_devices_ledger_audit.Block.Hash.{Collision}
use iot_devices_ledger_audit.Chain.{
  load, latest, size, append_after, push_persisted, append, verify, verify_chain,
}
use iot_devices_ledger_audit.Chain.Links.{IsLinked}
use iot_devices_ledger_audit.Chain.Verdict.{
  passed, failed, Verdict, verify_chain-Verdict, verify_chain_iff,
}
use iot_devices_ledger_audit.Chain.Growth.{append-verify}
use iot_devices_ledger_audit.Chain.Tamper.{IsProper, verify_chain_inj}
use iot_devices_ledger_audit.Error.{storage_error}
use iot_devices_ledger_audit.Storage.{append_block, parse_line, load_chain, malformed}
use iot_devices_ledger_audit.Storage.Torn.{torn_append-load_chain}
use iot_devices_ledger_audit.Examples.Data.{
  first_log, text_of, Json, valve_opened, genesis_block, second_block, first_chain, second_chain,
}
use iot_devices_ledger_audit.Examples.Facts.{
  first_healthy, first-Encodes, two-IsLinked, genesis-IsStorable, second-IsStorable,
}

abbrev two_blocks : List (Block Json)
two_blocks = genesis_block ∷ second_block ∷ []

-- The second block alone, which follows no 64 zeros.
abbrev headless : List (Block Json)
headless = second_block ∷ []

two_blocks_verify : verify_chain sample two_blocks ≡ ok (passed 2 2)
two_blocks_verify = (verify_chain_iff sample two_blocks).1 two-IsLinked

verify_chain_iff_example :
    (verify_chain sample two_blocks ≡ ok (passed 2 2)) ↔ IsLinked sample zero_hash two_blocks
verify_chain_iff_example = verify_chain_iff sample two_blocks

headless_fails : verify_chain sample headless ≡ ok (failed 1 0)
unfolding verify_chain second_block make_block compute_hash hash_input sample str_eq genesis_block
    hex index_bytes now_rfc3339 to_string event_to_json bytes genesis_event
headless_fails = refl

verify_chain-Verdict_example : Verdict sample 0 1 zero_hash headless (failed 1 0)
verify_chain-Verdict_example = verify_chain-Verdict sample headless (failed 1 0) headless_fails

genesis-IsProper : IsProper sample sample_laws genesis_block
unfolding genesis_block make_block compute_hash sample now_rfc3339 hash_input to_string
genesis-IsProper = record {
  index_fits = genesis-IsStorable.index_fits;
  stamp_length = refl;
  exact = genesis-IsStorable.exact;
}

second-IsProper : IsProper sample sample_laws second_block
unfolding second_block make_block compute_hash sample now_rfc3339 hash_input to_string
second-IsProper = record {
  index_fits = second-IsStorable.index_fits;
  stamp_length = refl;
  exact = second-IsStorable.exact;
}

verify_chain_inj_example : (two_blocks ≡ two_blocks) ⊎ Collision sample
verify_chain_inj_example =
    verify_chain_inj sample sample_laws two_blocks two_blocks (passed 2 2) (passed 2 2)
      (genesis-IsProper, (second-IsProper, tt)) (genesis-IsProper, (second-IsProper, tt)) refl
      two_blocks_verify two_blocks_verify refl refl refl

first_append : append sample 60 first_chain valve_opened ≡ some (ok second_chain)
unfolding append first_chain second_chain genesis_block second_block make_block compute_hash
    hash_input sample latest append_after push_persisted
first_append = refl

first_verifies : verify sample first_chain ≡ ok (passed (size first_chain) (size first_chain))
unfolding verify first_chain size
first_verifies = (verify_chain_iff sample (genesis_block ∷ [])).1 (two-IsLinked.0, tt)

append-verify_example :
    (verify sample second_chain ≡ ok (passed (size first_chain + 1) (size first_chain + 1)))
    × ((last b : Block Json) × (latest first_chain ≡ some last)
        × (second_chain.blocks ≡ first_chain.blocks ++ b ∷ [])
        × (b.event ≡ valve_opened)
        × (b.index ≡ (last.index + 1) % 2 ^ 64)
        × (b.timestamp ≡ now_rfc3339 60))
append-verify_example =
    append-verify sample 60 first_chain second_chain valve_opened first_append first_verifies

second_hashed :
    compute_hash sample 1 second_block.timestamp valve_opened genesis_block.hash
    ≡ ok second_block.hash
unfolding second_block genesis_block make_block compute_hash hash_input sample
second_hashed = refl

abbrev second_text : Bytes
second_text = text_of (sample.dump (block_to_json sample second_block))

second_dumps : sample.dump (block_to_json sample second_block) ≡ ok second_text
unfolding sample
second_dumps = refl

-- The text is longer than three bytes.
second_length : 3 ≤ length second_text
unfolding sample block_to_json
second_length = omega arith

torn_append-load_chain_example :
    let (r, os') = append_block sample (some 3) first_log second_block in
    (r ≡ err (storage_error (bytes "failed to append block to ledger log")))
    × (((3 < length second_text)
          × ((m : Bytes) × (parse_line sample (take 3 second_text) ≡ err m)
              × (load_chain sample 90 (some os'.contents) ≡ err (malformed sample (1 + 1) m))))
        ⊎ ((c : Block Json) × (parse_line sample (take 3 second_text) ≡ ok c)
            × ((3 < length second_text) ⊎ (c ≡ second_block))
            × (load_chain sample 90 (some os'.contents) ≡ ok (load (genesis_block ∷ c ∷ [])))))
torn_append-load_chain_example =
    torn_append-load_chain sample sample_laws 90 3 first_log (genesis_block ∷ []) second_block
      second_text (genesis-IsStorable, tt) second-IsStorable first-Encodes first_healthy
      second_dumps (omega arith) second_length
