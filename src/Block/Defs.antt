-- ===== src/Block/Defs.antt =====
-- storage-core/include/block.hpp: events, blocks, their JSON form and their hash. The JSON library
-- and SHA-256 are the parameter `lib`; the clock is read by the caller and passed in.
use iot_devices_ledger_audit.Prelude.{
  ℕ, zero, suc, ◌+◌, ◌*◌, ◌/◌, ◌%◌, ◌^◌, [], ◌∷◌, ◌++◌, Result, ok, ◌>>=◌, replicate, ltb,
  if◌then◌else◌,
}
use iot_devices_ledger_audit.Prelude.Bytes.{Bytes, bytes}
use iot_devices_ledger_audit.Json.{Library}
use iot_devices_ledger_audit.Block.Clock.{now_rfc3339}

pub record EventPayload (Json : Type 0) : Type 0 where
  pub event_type : Bytes
  pub location_id : Bytes
  pub actor : Bytes
  pub description : Bytes
  pub metadata : Json

pub record Block (Json : Type 0) : Type 0 where
  pub index : ℕ
  pub timestamp : Bytes
  pub event : EventPayload Json
  pub prev_hash : Bytes
  pub hash : Bytes

-- The loop that writes the eight bytes of the index, lowest first.
unfoldable pub index_bytes_from : ℕ → ℕ → ℕ → Bytes
index_bytes_from zero i index = []
index_bytes_from (suc rounds) i index =
    (index / 2 ^ (i * 8) % 256) ∷ index_bytes_from rounds (i + 1) index

unfoldable pub index_bytes : ℕ → Bytes
unfolding index_bytes_from
index_bytes index = index_bytes_from 8 0 index

unfoldable pub hex_digit : ℕ → ℕ
hex_digit n = if ltb n 10 then 48 + n else 87 + n

-- `std::hex` with `setw(2)` and `setfill('0')`, for each byte of the digest.
unfoldable pub hex : Bytes → Bytes
unfolding hex_digit
hex [] = []
hex (b ∷ out) = hex_digit (b / 16) ∷ hex_digit (b % 16) ∷ hex out

-- `std::string(64, '0')`
abbrev pub zero_hash : Bytes
zero_hash = replicate 64 b'0'

module _ (lib : Library) where
  open lib use {Json, of_uint, of_str, of_fields, dump, at, get_str, get_uint, sha256}

  unfoldable pub event_to_json : EventPayload Json → Json
  event_to_json e = of_fields (
      (bytes "event_type", of_str e.event_type)
      ∷ (bytes "location_id", of_str e.location_id)
      ∷ (bytes "actor", of_str e.actor)
      ∷ (bytes "description", of_str e.description)
      ∷ (bytes "metadata", e.metadata)
      ∷ [])

  unfoldable pub event_from_json : Json → Result Bytes (EventPayload Json)
  event_from_json j = do
    event_type ← get_str (← at j (bytes "event_type"))
    location_id ← get_str (← at j (bytes "location_id"))
    actor ← get_str (← at j (bytes "actor"))
    description ← get_str (← at j (bytes "description"))
    metadata ← at j (bytes "metadata")
    ok (record {
      event_type = event_type;
      location_id = location_id;
      actor = actor;
      description = description;
      metadata = metadata;
    })

  unfoldable pub block_to_json : Block Json → Json
  block_to_json b = of_fields (
      (bytes "index", of_uint b.index)
      ∷ (bytes "timestamp", of_str b.timestamp)
      ∷ (bytes "event", event_to_json b.event)
      ∷ (bytes "prev_hash", of_str b.prev_hash)
      ∷ (bytes "hash", of_str b.hash)
      ∷ [])

  unfoldable pub block_from_json : Json → Result Bytes (Block Json)
  block_from_json j = do
    index ← get_uint (← at j (bytes "index"))
    timestamp ← get_str (← at j (bytes "timestamp"))
    event ← event_from_json (← at j (bytes "event"))
    prev_hash ← get_str (← at j (bytes "prev_hash"))
    hash ← get_str (← at j (bytes "hash"))
    ok (record {
      index = index;
      timestamp = timestamp;
      event = event;
      prev_hash = prev_hash;
      hash = hash;
    })

  -- What `compute_hash` feeds to the digest; the error is the message of a failed dump.
  unfoldable pub hash_input : ℕ → Bytes → EventPayload Json → Bytes → Result Bytes Bytes
  hash_input index timestamp event prev_hash = do
    text ← dump (event_to_json event)
    ok (index_bytes index ++ (timestamp ++ (text ++ prev_hash)))

  unfoldable pub compute_hash : ℕ → Bytes → EventPayload Json → Bytes → Result Bytes Bytes
  compute_hash index timestamp event prev_hash = do
    input ← hash_input index timestamp event prev_hash
    ok (hex (sha256 input))

  -- `now` is what `std::time` returns.
  unfoldable pub make_block : ℕ → ℕ → EventPayload Json → Bytes → Result Bytes (Block Json)
  make_block now index event prev_hash = do
    let ts = now_rfc3339 now
    h ← compute_hash index ts event prev_hash
    ok (record { index = index; timestamp = ts; event = event; prev_hash = prev_hash; hash = h })

  unfoldable pub genesis_event : EventPayload Json
  genesis_event = record {
    event_type = bytes "GENESIS";
    location_id = bytes "system";
    actor = bytes "system";
    description = bytes "Genesis block";
    metadata = of_fields [];
  }

  unfoldable pub genesis : ℕ → Result Bytes (Block Json)
  genesis now = make_block now 0 genesis_event zero_hash
