-- ===== src/System/Defs.antt =====
-- The writer thread of storage-core/src/writer.cpp, one critical section or call at a time, among
-- the handlers of storage-core/src/server.cpp and the connections of storage-core/src/ws.cpp. A
-- reader changes nothing: what it sees under the shared lock is the chain of some reachable state.
use iot_devices_ledger_audit.Prelude.{
  ℕ, ◌<◌, ◌≡◌, List, [], ◌∷◌, ◌++◌, Option, none, some, Result, ok, err, set,
}
use iot_devices_ledger_audit.Prelude.Bytes.{Bytes}
use iot_devices_ledger_audit.Json.{Library}
use iot_devices_ledger_audit.Error.{Exception, json_error}
use iot_devices_ledger_audit.Block.{Block, EventPayload}
use iot_devices_ledger_audit.Chain.{push_persisted}
use iot_devices_ledger_audit.Storage.{Stream, append_block}
use iot_devices_ledger_audit.Queue.{WriteQueue, pop}
use iot_devices_ledger_audit.Queue
use iot_devices_ledger_audit.Broadcast.{
  Broadcaster, Subscription, Item, lock, subscribe, release, next, close,
}
use iot_devices_ledger_audit.Writer.{WriteRequest, AppState, build_next, fan_out}
use iot_devices_ledger_audit.Server.{Request, validate, submit_event}

-- Where the writer stands, with the locals that are live there.
pub data Phase (Json : Type 0) : Type 0 where
  -- at `pop`
  idle : Phase Json
  popped : WriteRequest Json → Phase Json
  -- before `append_block`
  built : WriteRequest Json → Block Json → Phase Json
  -- before `push_persisted`
  persisted : WriteRequest Json → Block Json → Phase Json
  -- before `publish`
  pushed : WriteRequest Json → Block Json → Phase Json
  -- before `set_value`
  published : WriteRequest Json → Block Json → Phase Json
  -- before `set_exception`
  failed : WriteRequest Json → Exception → Phase Json
  ended : Phase Json

-- The shared state, the writer's log and place, and what has happened: the requests that the queue
-- took, those whose promises were kept, and the blocks published, each oldest first.
pub record System (Json : Type 0) : Type 0 where
  pub app : AppState Json
  pub log : Stream
  pub phase : Phase Json
  pub accepted : List (WriteRequest Json)
  pub replies : List (WriteRequest Json × Result Exception (Block Json))
  pub told : List (Block Json)

module _ {Json : Type 0} where
  abbrev pub with_queue : AppState Json → WriteQueue (WriteRequest Json) → AppState Json
  with_queue app q = record app { write_queue = some q }

  abbrev pub with_hub : AppState Json → Broadcaster (Block Json) → AppState Json
  with_hub app h = record app { broadcaster = some h }

module _ (lib : Library) where
  open lib use {Json}

  -- One step of the writer thread.
  pub data WriterStep (s : System Json) : System Json → Type 0 where
    pops :
        (q q' : WriteQueue (WriteRequest Json)) (r : WriteRequest Json)
        → s.phase ≡ idle
        → s.app.write_queue ≡ some q
        → pop q ≡ some (some r, q')
        → WriterStep s (record s { app = with_queue s.app q'; phase = popped r })
    ends :
        (q q' : WriteQueue (WriteRequest Json))
        → s.phase ≡ idle
        → s.app.write_queue ≡ some q
        → pop q ≡ some (none, q')
        → WriterStep s (record s { app = with_queue s.app q'; phase = ended })
    builds :
        (r : WriteRequest Json) (now : ℕ) (b : Block Json)
        → s.phase ≡ popped r
        → build_next lib now s.app r.event ≡ some (ok b)
        → WriterStep s (record s { phase = built r b })
    build_throws :
        (r : WriteRequest Json) (now : ℕ) (m : Bytes)
        → s.phase ≡ popped r
        → build_next lib now s.app r.event ≡ some (err m)
        → WriterStep s (record s { phase = failed r (json_error m) })
    appends :
        (r : WriteRequest Json) (b : Block Json) (disk : Option ℕ) (log' : Stream)
        → s.phase ≡ built r b
        → append_block lib disk s.log b ≡ (ok tt, log')
        → WriterStep s (record s { log = log'; phase = persisted r b })
    append_throws :
        (r : WriteRequest Json) (b : Block Json) (disk : Option ℕ) (e : Exception) (log' : Stream)
        → s.phase ≡ built r b
        → append_block lib disk s.log b ≡ (err e, log')
        → WriterStep s (record s { log = log'; phase = failed r e })
    pushes :
        (r : WriteRequest Json) (b : Block Json)
        → s.phase ≡ persisted r b
        → WriterStep s (record s {
          app = record (s.app) { chain = push_persisted s.app.chain b };
          phase = pushed r b;
        })
    publishes :
        (r : WriteRequest Json) (b : Block Json) (app' : AppState Json)
        → s.phase ≡ pushed r b
        → fan_out lib s.app b ≡ some app'
        → WriterStep s (record s { app = app'; phase = published r b; told = s.told ++ b ∷ [] })
    replies :
        (r : WriteRequest Json) (b : Block Json)
        → s.phase ≡ published r b
        → WriterStep s (record s { phase = idle; replies = s.replies ++ (r, ok b) ∷ [] })
    refuses :
        (r : WriteRequest Json) (e : Exception)
        → s.phase ≡ failed r e
        → WriterStep s (record s { phase = idle; replies = s.replies ++ (r, err e) ∷ [] })

  -- One step of any thread.
  pub data Step (s : System Json) : System Json → Type 0 where
    writes : {t : System Json} → WriterStep s t → Step s t
    -- POST /events, up to its wait for the future
    submits :
        (promise : ℕ) (req : Request) (event : EventPayload Json) (app' : AppState Json)
        → validate lib req.body ≡ ok event
        → submit_event lib s.app promise req ≡ some (ok app')
        → Step s (record s {
          app = app';
          accepted = s.accepted ++ record { event = event; respond_to = promise } ∷ [];
        })
    subscribes :
        (h : Broadcaster (Block Json)) (capacity : ℕ)
        → s.app.broadcaster ≡ some h
        → 0 < capacity
        → Step s (record s { app = with_hub s.app (subscribe h capacity).1 })
    -- a pump takes an item
    receives :
        (h : Broadcaster (Block Json)) (id : ℕ) (sub sub' : Subscription (Block Json))
        (item : Option (Item (Block Json)))
        → s.app.broadcaster ≡ some h
        → lock h.cells id ≡ some sub
        → next sub ≡ some (item, sub')
        → Step s
            (record s { app = with_hub s.app (record h { cells = set h.cells id (some sub') }) })
    -- a connection closes its subscription, and lets it go
    hangs_up :
        (h : Broadcaster (Block Json)) (id : ℕ) (sub : Subscription (Block Json))
        → s.app.broadcaster ≡ some h
        → lock h.cells id ≡ some sub
        → Step s (record s {
          app = with_hub s.app (record h { cells = set h.cells id (some (close sub)) });
        })
    releases :
        (h : Broadcaster (Block Json)) (id : ℕ)
        → s.app.broadcaster ≡ some h
        → Step s (record s { app = with_hub s.app (release h id) })
    closes :
        (q : WriteQueue (WriteRequest Json))
        → s.app.write_queue ≡ some q
        → Step s (record s { app = with_queue s.app (Queue.close q) })

  -- Any number of steps.
  pub data Steps (s : System Json) : System Json → Type 0 where
    here : Steps s s
    later : {t u : System Json} → Steps s t → Step t u → Steps s u

  -- The threads begin on a state that `run` has made: nothing is queued yet, nothing told.
  pub data Begins : System Json → Type 0 where
    begins :
        (app : AppState Json) (log : Stream) (capacity : ℕ)
        → app.write_queue ≡ some (Queue.empty capacity)
        → Begins
            (record { app = app; log = log; phase = idle; accepted = []; replies = []; told = [] })
