-- ===== src/Startup/Defs.antt =====
-- `run` of storage-core/src/main.cpp, from the configured path to the start of the writer thread:
-- the chain is loaded, the log is opened, and the genesis block of a fresh boot is written. `none` is
-- undefined behaviour.
use iot_devices_ledger_audit.Prelude.{
  ℕ, Bool, true, false, Option, none, some, Result, ok, err, is_empty,
}
use iot_devices_ledger_audit.Prelude.Bytes.{Bytes}
use iot_devices_ledger_audit.Json.{Library}
use iot_devices_ledger_audit.Error.{Exception}
use iot_devices_ledger_audit.Chain.{Chain, latest}
use iot_devices_ledger_audit.Storage.{Stream, Disk, open_append, append_block, load_chain, seen}
use iot_devices_ledger_audit.Queue
use iot_devices_ledger_audit.Broadcast.{no_subscribers}
use iot_devices_ledger_audit.Writer.{AppState}

-- `file_size` fails, or it is zero.
unfoldable pub is_fresh : Option Bytes → Bool
is_fresh none = true
is_fresh (some contents) = is_empty contents

module _ (lib : Library) where
  open lib use {Json}

  unfoldable pub written_or_thrown : Result Exception (Unit {0}) × Stream → Result Exception Stream
  written_or_thrown (ok u, log) = ok log
  written_or_thrown (err e, log) = err e

  unfoldable pub persist_genesis :
      Option ℕ → Bool → Chain Json → Stream → Option (Result Exception Stream)
  unfolding written_or_thrown
  persist_genesis write false chain log = some (ok log)
  persist_genesis write true chain log = elim (latest chain) [
    | none ↦ none
    | some b ↦ some (written_or_thrown (append_block lib write log b))
  ]

  -- The queue and the broadcaster that the state points to are new.
  unfoldable pub started :
      Chain Json
      → Option (Result Exception Stream)
      → Option (Result Exception (AppState Json × Stream))
  started chain none = none
  started chain (some (err e)) = some (err e)
  started chain (some (ok log)) = some (
      ok (
        record {
          chain = chain;
          write_queue = some (Queue.empty Queue.default_capacity);
          broadcaster = some no_subscribers;
        },
        log,
      ))

  unfoldable pub open_log :
      Option ℕ → Disk → Chain Json → Option (Result Exception (AppState Json × Stream))
  unfolding persist_genesis started
  open_log write disk chain = elim (open_append disk) [
    | err e ↦ some (err e)
    | ok log ↦
        started chain (persist_genesis write (is_fresh (seen disk.sized disk.file)) chain log)
  ]

  -- At the time `now`, with what the disk takes of the write of the genesis block.
  unfoldable pub boot : ℕ → Option ℕ → Disk → Option (Result Exception (AppState Json × Stream))
  unfolding open_log
  boot now write disk = elim (load_chain lib now (seen disk.readable disk.file)) [
    | err e ↦ some (err e)
    | ok chain ↦ open_log write disk chain
  ]
