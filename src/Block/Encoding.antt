-- ===== src/Block/Encoding.antt =====
-- The JSON form of events and blocks in storage-core/include/block.hpp.
use iot_devices_ledger_audit.Prelude.{◌^◌, ◌<◌, ◌≡◌, refl, sym, ap, ◌∙◌, ok_inj, ok, ◌>>=◌}
use iot_devices_ledger_audit.Prelude.Bytes.{Bytes, bytes, lookup, str_eq}
use iot_devices_ledger_audit.Json.{Library, Laws}
use iot_devices_ledger_audit.Block.Defs.{
  EventPayload, Block, event_to_json, event_from_json, block_to_json, block_from_json,
}

module _ (lib : Library) (laws : Laws lib) where
  open lib use {Json, dump, parse}
  open laws use {IsExact}

  event_from_json-to_json :
      (e : EventPayload Json) → event_from_json lib (event_to_json lib e) ≡ ok e
  unfolding event_from_json event_to_json lookup str_eq bytes
  event_from_json-to_json e = rw (
    laws.at_fields _ (bytes "event_type") _ refl,
    laws.get_str_of,
    laws.at_fields _ (bytes "location_id") _ refl,
    laws.get_str_of,
    laws.at_fields _ (bytes "actor") _ refl,
    laws.get_str_of,
    laws.at_fields _ (bytes "description") _ refl,
    laws.get_str_of,
    laws.at_fields _ (bytes "metadata") _ refl,
  )

  -- Reading the JSON form of a block gives the block back.
  pub block_from_json-to_json :
      (b : Block Json) → b.index < 2 ^ 64 → block_from_json lib (block_to_json lib b) ≡ ok b
  unfolding block_from_json block_to_json lookup str_eq bytes
  block_from_json-to_json b h = rw (
    laws.at_fields _ (bytes "index") _ refl,
    laws.get_uint_of b.index h,
    laws.at_fields _ (bytes "timestamp") _ refl,
    laws.get_str_of,
    laws.at_fields _ (bytes "event") _ refl,
    event_from_json-to_json b.event,
    laws.at_fields _ (bytes "prev_hash") _ refl,
    laws.get_str_of,
    laws.at_fields _ (bytes "hash") _ refl,
    laws.get_str_of,
  )

  event_to_json-IsExact :
      (e : EventPayload Json) → IsExact e.metadata → IsExact (event_to_json lib e)
  unfolding event_to_json
  event_to_json-IsExact e h =
      laws.exact_fields _
        (laws.exact_str _, (laws.exact_str _, (laws.exact_str _, (laws.exact_str _, (h, tt)))))

  pub block_to_json-IsExact :
      (b : Block Json) → b.index < 2 ^ 64 → IsExact b.event.metadata → IsExact (block_to_json lib b)
  unfolding block_to_json
  block_to_json-IsExact b h x = laws.exact_fields _ (
    laws.exact_uint _ h,
    (
      laws.exact_str _,
      (event_to_json-IsExact b.event x, (laws.exact_str _, (laws.exact_str _, tt))),
    ),
  )

  -- A block of a 64-bit index and of metadata that a dump keeps parses back from its dump.
  pub parse-dump-block :
      (b : Block Json) (text : Bytes)
      → b.index < 2 ^ 64
      → IsExact b.event.metadata
      → dump (block_to_json lib b) ≡ ok text
      → (parse text >>= block_from_json lib) ≡ ok b
  parse-dump-block b text h x d =
      rw (laws.parse_dump _ text (block_to_json-IsExact b h x) d) (block_from_json-to_json b h)

  -- Events with one dump are one event.
  pub dump-event_inj :
      (e f : EventPayload Json) (text : Bytes)
      → IsExact e.metadata
      → IsExact f.metadata
      → dump (event_to_json lib e) ≡ ok text
      → dump (event_to_json lib f) ≡ ok text
      → e ≡ f
  dump-event_inj e f text x y d d' =
      ok_inj (
        sym (event_from_json-to_json e) ∙ ap (event_from_json lib) same ∙ event_from_json-to_json f)
    where
      same : event_to_json lib e ≡ event_to_json lib f
      same = ok_inj (
          sym (laws.parse_dump _ text (event_to_json-IsExact e x) d)
          ∙ laws.parse_dump _ text (event_to_json-IsExact f y) d')
