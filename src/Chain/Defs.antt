-- ===== src/Chain/Defs.antt =====
-- storage-core/include/chain.hpp and storage-core/src/chain.cpp. `back()` of an empty vector is
-- undefined in the source: `latest` has no value there, and so has `append`.
use iot_devices_ledger_audit.Prelude.{
  ℕ, ◌+◌, ◌%◌, ◌^◌, Bool, true, false, not, ◌||◌, List, [], ◌∷◌, ◌++◌, Option, none, some, Result,
  ok, ◌>>=◌, length, get_last?, if◌then◌else◌,
}
use iot_devices_ledger_audit.Prelude.Bytes.{Bytes, str_eq}
use iot_devices_ledger_audit.Json.{Library}
use iot_devices_ledger_audit.Block.{
  EventPayload, Block, compute_hash, make_block, genesis, zero_hash,
}

pub record VerifyResult : Type 0 where
  pub valid : Bool
  pub chain_length : ℕ
  pub checked_blocks : ℕ
  pub first_invalid_index : Option ℕ

pub record Chain (Json : Type 0) : Type 0 where
  pub blocks : List (Block Json)

module _ {Json : Type 0} where
  unfoldable pub load : List (Block Json) → Chain Json
  load blocks = record { blocks = blocks }

  unfoldable pub latest : Chain Json → Option (Block Json)
  latest c = get_last? c.blocks

  unfoldable pub size : Chain Json → ℕ
  size c = length c.blocks

  -- The block comes back as the source returns the reference to it.
  unfoldable pub push_persisted : Chain Json → Block Json → Chain Json
  push_persisted c b = record { blocks = c.blocks ++ b ∷ [] }

module _ (lib : Library) where
  open lib use {Json}

  -- `Chain::Chain()` at the time `now`.
  unfoldable pub fresh : ℕ → Result Bytes (Chain Json)
  fresh now = do b ← genesis lib now; ok (record { blocks = b ∷ [] })

  unfoldable pub append_after :
      ℕ → Chain Json → EventPayload Json → Block Json → Result Bytes (Chain Json)
  append_after now c event last = do
    b ← make_block lib now ((last.index + 1) % 2 ^ 64) event last.hash
    ok (push_persisted c b)

  unfoldable pub append : ℕ → Chain Json → EventPayload Json → Option (Result Bytes (Chain Json))
  append now c event = elim (latest c) [
    | none ↦ none
    | some last ↦ some (append_after now c event last)
  ]

  -- The loop of `verify_chain`, at position `i`; `expected_prev` is the hash of the block before.
  unfoldable pub verify_loop :
      ℕ → Bytes → VerifyResult → List (Block Json) → Result Bytes VerifyResult
  verify_loop i expected_prev result [] = ok result
  verify_loop i expected_prev result (b ∷ rest) =
      compute_hash lib b.index b.timestamp b.event b.prev_hash >>= λ recomputed.
      let checked = record result { checked_blocks = result.checked_blocks + 1 } in
      let go = verify_loop (i + 1) b.hash checked rest in
      if not (str_eq b.prev_hash expected_prev) || not (str_eq recomputed b.hash)
      then ok (record checked { valid = false; first_invalid_index = some i })
      else go

  unfoldable pub verify_chain : List (Block Json) → Result Bytes VerifyResult
  unfolding verify_loop
  verify_chain blocks =
      verify_loop 0 zero_hash
        (record {
          valid = true;
          chain_length = length blocks;
          checked_blocks = 0;
          first_invalid_index = none;
        })
        blocks

  unfoldable pub verify : Chain Json → Result Bytes VerifyResult
  unfolding verify_chain
  verify c = verify_chain c.blocks
