-- ===== src/Storage/Defs.antt =====
-- storage-core/include/storage.hpp and storage-core/src/storage.cpp. The file system answers through
-- arguments: what a file holds, whether a directory or a file can be opened, and how much of a
-- write reaches the disk.
use iot_devices_ledger_audit.Prelude.{
  ℕ, ◌+◌, Bool, true, false, List, [], ◌∷◌, ◌++◌, Option, none, some, Result, ok, err, ◌>>=◌,
  map_err, take, ◌==◌, if◌then◌else◌,
}
use iot_devices_ledger_audit.Prelude.Bytes.{Bytes, bytes}
use iot_devices_ledger_audit.Prelude.Decimal.{to_string}
use iot_devices_ledger_audit.Json.{Library}
use iot_devices_ledger_audit.Error.{Exception, storage_error, json_error}
use iot_devices_ledger_audit.Block.{Block, block_to_json, block_from_json}
use iot_devices_ledger_audit.Chain.{Chain, load, fresh}

-- `std::ofstream` in append mode: what the file holds, and `!os`, which nothing clears.
pub record Stream : Type 0 where
  pub contents : Bytes
  pub failed : Bool

-- `write` and `flush` of `s`. The disk takes all of it (`none`) or only its first bytes.
unfoldable pub write : Option ℕ → Stream → Bytes → Stream
write none os s = if os.failed then os else record os { contents = os.contents ++ s }
write (some n) os s =
    if os.failed then os else record { contents = os.contents ++ take n s; failed = true }

-- What the file system answers about the path of the ledger: what the file holds, if there is one,
-- and whether `file_size` and `std::ifstream` can see it.
pub record Disk : Type 0 where
  pub path : Bytes
  pub parent : Option Bytes
  pub mkdir_error : Option Bytes
  pub opens : Bool
  pub sized : Bool
  pub readable : Bool
  pub file : Option Bytes

unfoldable pub seen : Bool → Option Bytes → Option Bytes
seen true file = file
seen false file = none

abbrev contents_of : Option Bytes → Bytes
contents_of none = []
contents_of (some s) = s

unfoldable pub make_parent : Disk → Result Exception (Unit {0})
make_parent disk = elim disk.parent [
  | none ↦ ok tt
  | some dir ↦ elim disk.mkdir_error [
    | none ↦ ok tt
    | some message ↦
        err
          (storage_error (bytes "failed to create directory " ++ (dir ++ (bytes ": " ++ message))))
  ]
]

unfoldable pub open_append : Disk → Result Exception Stream
unfolding make_parent
open_append disk = make_parent disk >>= λ _.
    if disk.opens
    then ok (record { contents = contents_of disk.file; failed = false })
    else err (storage_error (bytes "failed to open ledger log for append: " ++ disk.path))

-- One more byte at the front of the first line.
attach : ℕ → List Bytes → List Bytes
attach c [] = (c ∷ []) ∷ []
attach c (l ∷ ls) = (c ∷ l) ∷ ls

-- The texts that `std::getline` reads one after the other.
unfoldable pub lines : Bytes → List Bytes
unfolding attach
lines [] = []
lines (c ∷ s) = let rest = lines s in if c == 10 then [] ∷ rest else attach c rest

module _ (lib : Library) where
  open lib use {Json, dump, parse}

  written : Stream → Result Exception (Unit {0}) × Stream
  written os = (
    if os.failed then err (storage_error (bytes "failed to append block to ledger log")) else ok tt,
    os,
  )

  unfoldable pub append_block :
      Option ℕ → Stream → Block Json → Result Exception (Unit {0}) × Stream
  unfolding written write
  append_block disk os b = elim (dump (block_to_json lib b)) [
    | err message ↦ (err (json_error message), os)
    | ok text ↦ written (write disk os (text ++ 10 ∷ []))
  ]

  unfoldable pub parse_line : Bytes → Result Bytes (Block Json)
  parse_line line = parse line >>= block_from_json lib

  unfoldable pub malformed : ℕ → Bytes → Exception
  malformed lineno message =
      storage_error
        (bytes "malformed ledger line " ++ (to_string lineno ++ (bytes ": " ++ message)))

  -- The loop over the lines, of which `lineno` are read.
  unfoldable pub load_loop :
      ℕ → List (Block Json) → List Bytes → Result Exception (List (Block Json))
  load_loop lineno blocks [] = ok blocks
  load_loop lineno blocks (line ∷ rest) = elim (parse_line line) [
    | err message ↦ err (malformed (lineno + 1) message)
    | ok b ↦ load_loop (lineno + 1) (blocks ++ b ∷ []) rest
  ]

  unfoldable pub fresh_chain : ℕ → Result Exception (Chain Json)
  fresh_chain now = map_err json_error (fresh lib now)

  unfoldable pub or_fresh : ℕ → List (Block Json) → Result Exception (Chain Json)
  unfolding fresh_chain
  or_fresh now [] = fresh_chain now
  or_fresh now (b ∷ bs) = ok (load (b ∷ bs))

  -- `none` is a file that cannot be opened for reading.
  unfoldable pub load_chain : ℕ → Option Bytes → Result Exception (Chain Json)
  unfolding fresh_chain
  load_chain now none = fresh_chain now
  load_chain now (some contents) = load_loop 0 [] (lines contents) >>= or_fresh now
