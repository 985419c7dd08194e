-- ===== src/Process/Defs.antt =====
-- `run` and `main` of storage-core/src/main.cpp as the runs that they allow. The threads take their
-- steps as the scheduler will; the lines that are logged are left out.
use iot_devices_ledger_audit.Prelude.{ℕ, ◌≡◌, Bool, true, false, [], Option, none, some, ok, err}
use iot_devices_ledger_audit.Prelude.Bytes.{Bytes}
use iot_devices_ledger_audit.Json.{Library}
use iot_devices_ledger_audit.Error.{Exception}
use iot_devices_ledger_audit.Block.{Block}
use iot_devices_ledger_audit.Log.{Logger}
use iot_devices_ledger_audit.Config.{Config, load_config}
use iot_devices_ledger_audit.Storage.{Stream, Disk}
use iot_devices_ledger_audit.Queue.{WriteQueue}
use iot_devices_ledger_audit.Queue
use iot_devices_ledger_audit.Broadcast.{Broadcaster, close_all}
use iot_devices_ledger_audit.Writer.{AppState, WriteRequest}
use iot_devices_ledger_audit.Server.{ServerHandle}
use iot_devices_ledger_audit.Server.Serve.{Listening, serve}
use iot_devices_ledger_audit.Startup.{boot}
use iot_devices_ledger_audit.System.{System, Phase, Steps, with_queue, with_hub}
use iot_devices_ledger_audit.System.Progress.{Alone}

module _ {Json : Type 0} where
  -- The threads when the writer starts.
  abbrev pub threads : AppState Json → Stream → System Json
  threads app log = record {
    app = app;
    log = log;
    phase = Phase.idle;
    accepted = [];
    replies = [];
    told = [];
  }

-- `return ok ? 0 : 1`
unfoldable pub exit_code : Bool → ℕ
exit_code true = 0
exit_code false = 1

module _ (lib : Library) where
  open lib use {Json}

  -- `queue.close(); writer.join();`, when no other thread uses the shared state any more: the
  -- listeners have returned, and have joined their threads, or have never started.
  pub data Joined (s : System Json) : System Json → Type 0 where
    joined :
        (q : WriteQueue (WriteRequest Json)) (n : ℕ) (t : System Json)
        → s.app.write_queue ≡ some q
        → Alone lib (record s { app = with_queue s.app (Queue.close q) }) n t
        → t.phase ≡ Phase.ended
        → Joined s t

  -- A run in an environment: the exit code, and the last state of the threads if they started.
  pub data Ran (env : Bytes → Option Bytes) (disk : Bytes → Disk)
      : ℕ → Option (System Json) → Type 0 where
    config_throws : (e : Exception) → load_config env ≡ err e → Ran env disk 1 none
    boot_throws :
        (config : Config) (now : ℕ) (write : Option ℕ) (e : Exception)
        → load_config env ≡ ok config
        → boot lib now write (disk config.ledger_path) ≡ some (err e)
        → Ran env disk 1 none
    -- The listener of the feed does not start.
    feed_fails :
        (config : Config) (now : ℕ) (write : Option ℕ) (app : AppState Json) (log : Stream)
        (t : System Json)
        → load_config env ≡ ok config
        → boot lib now write (disk config.ledger_path) ≡ some (ok (app, log))
        → Joined (threads app log) t
        → Ran env disk 1 (some t)
    -- From the start of the threads to the end of `ws.stop()` any thread may take steps; `serve`
    -- returns meanwhile.
    served :
        (config : Config) (now : ℕ) (write : Option ℕ) (app : AppState Json) (log : Stream)
        (handle : ServerHandle) (clock : ℕ → ℕ) (srv : ℕ) (call : Listening) (logger : Logger)
        (t u : System Json) (h : Broadcaster (Block Json))
        → load_config env ≡ ok config
        → boot lib now write (disk config.ledger_path) ≡ some (ok (app, log))
        → Steps lib (threads app log) t
        → Joined t u
        → u.app.broadcaster ≡ some h
        → Ran env disk
            (exit_code (serve clock config (some handle) srv call logger).0)
            (some (record u { app = with_hub u.app (close_all h) }))
