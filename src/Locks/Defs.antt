-- ===== src/Locks/Defs.antt =====
-- The mutexes of storage-core, and what each method does to them: the locks of
-- storage-core/src/broadcast.cpp, storage-core/src/writer.cpp, storage-core/src/server.cpp and
-- storage-core/src/ws.cpp, in the order of the source. A `lock_guard`, `unique_lock` or
-- `shared_lock` ends with its scope, so the lock that was taken last is given back first. A thread
-- asleep on a condition variable holds nothing; it comes back as a call of its own.
use iot_devices_ledger_audit.Prelude.{ℕ, Bool, true, false, ◌≡◌, ◌⊎◌, List, [], ◌∷◌, ◌++◌, All}

pub data Mutex : Type 0 where
  -- WriteQueue::mtx_, AppState::mtx, ServerHandle::mtx_, WsServer::Impl::mtx
  of_queue of_state of_handle of_conns : Mutex
  -- Broadcaster::mtx_
  of_hub : Mutex
  -- Subscription::mtx_ of a cell
  of_subscription : ℕ → Mutex

-- A lock that is taken, shared or not.
pub record Hold : Type 0 where
  pub mutex : Mutex
  pub shared : Bool

pub data Op : Type 0 where
  locks : Hold → Op
  -- the one taken last
  unlocks : Op

abbrev pub alone : Mutex → Hold
alone m = record { mutex = m; shared = false }

abbrev pub together : Mutex → Hold
together m = record { mutex = m; shared = true }

-- One critical section with nothing locked inside.
unfoldable pub guarded : Hold → List Op
guarded h = locks h ∷ unlocks ∷ []

pub data SubscriptionCall : Type 0 where
  push next try_next close is_closed buffered pending_lag : SubscriptionCall

unfoldable pub subscription_ops : ℕ → SubscriptionCall → List Op
unfolding guarded
subscription_ops w call = guarded (alone (of_subscription w))

-- The live subscriptions of the list at the time are `ws`.
pub data BroadcasterCall : Type 0 where
  subscribe subscriber_count : BroadcasterCall
  publish close_all : List ℕ → BroadcasterCall

unfoldable pub each : SubscriptionCall → List ℕ → List Op
unfolding subscription_ops
each call [] = []
each call (w ∷ ws) = subscription_ops w call ++ each call ws

unfoldable pub broadcaster_ops : BroadcasterCall → List Op
unfolding each guarded
broadcaster_ops subscribe = guarded (alone of_hub)
broadcaster_ops subscriber_count = guarded (alone of_hub)
broadcaster_ops (publish ws) = locks (alone of_hub) ∷ (each push ws ++ unlocks ∷ [])
broadcaster_ops (close_all ws) = locks (alone of_hub) ∷ (each close ws ++ unlocks ∷ [])

pub data QueueCall : Type 0 where
  push pop close is_closed size : QueueCall

unfoldable pub queue_ops : QueueCall → List Op
unfolding guarded
queue_ops call = guarded (alone of_queue)

-- How far `writer_loop` comes with a request that it has popped: a throw before the block is in the
-- chain, no broadcaster, or a publication.
pub data RequestPath : Type 0 where
  throws in_chain : RequestPath
  published : List ℕ → RequestPath

unfoldable pub request_ops : RequestPath → List Op
unfolding guarded broadcaster_ops
request_ops throws = guarded (together of_state)
request_ops in_chain = guarded (together of_state) ++ guarded (alone of_state)
request_ops (published ws) =
    guarded (together of_state) ++ (guarded (alone of_state) ++ broadcaster_ops (publish ws))

pub data HandlerCall : Type 0 where
  post_event get_blocks get_verify get_health : HandlerCall
  -- a handler that throws before it locks anything
  refuses : HandlerCall

unfoldable pub handler_ops : HandlerCall → List Op
unfolding guarded queue_ops
handler_ops post_event = queue_ops push
handler_ops get_blocks = guarded (together of_state)
handler_ops get_verify = guarded (together of_state)
handler_ops get_health = []
handler_ops refuses = []

pub data HandleCall : Type 0 where
  stop attach detach : HandleCall

unfoldable pub handle_ops : HandleCall → List Op
unfolding guarded
handle_ops call = guarded (alone of_handle)

-- The cells of the connections that `close_all` takes are `ws`.
pub data ConnsCall : Type 0 where
  on_open connection_count : ConnsCall
  on_close : ℕ → ConnsCall
  -- `on_open` of a refused connection, and `on_close` of an unknown one
  turns_away misses : ConnsCall
  close_all : List ℕ → ConnsCall

unfoldable pub conns_ops : ConnsCall → List Op
unfolding guarded broadcaster_ops subscription_ops each
conns_ops on_open = broadcaster_ops subscribe ++ guarded (alone of_conns)
conns_ops turns_away = []
conns_ops misses = guarded (alone of_conns)
conns_ops connection_count = guarded (alone of_conns)
conns_ops (on_close w) = guarded (alone of_conns) ++ subscription_ops w close
conns_ops (close_all ws) = guarded (alone of_conns) ++ each close ws

pub data Call : Type 0 where
  of_a_subscription : ℕ → SubscriptionCall → Call
  of_the_broadcaster : BroadcasterCall → Call
  of_the_queue : QueueCall → Call
  of_a_request : RequestPath → Call
  of_a_handler : HandlerCall → Call
  of_the_handle : HandleCall → Call
  of_the_conns : ConnsCall → Call

unfoldable pub ops : Call → List Op
unfolding subscription_ops broadcaster_ops queue_ops request_ops handler_ops handle_ops conns_ops
ops (of_a_subscription w call) = subscription_ops w call
ops (of_the_broadcaster call) = broadcaster_ops call
ops (of_the_queue call) = queue_ops call
ops (of_a_request path) = request_ops path
ops (of_a_handler call) = handler_ops call
ops (of_the_handle call) = handle_ops call
ops (of_the_conns call) = conns_ops call

unfoldable pub all_ops : List Call → List Op
unfolding ops
all_ops [] = []
all_ops (call ∷ calls) = ops call ++ all_ops calls

-- What a thread holds, the last one first, and what it does next.
pub record Thread : Type 0 where
  pub held : List Hold
  pub rest : List Op

abbrev pub starting : List Call → Thread
starting calls = record { held = []; rest = all_ops calls }

-- Two holds of one mutex that are not both shared.
abbrev pub Clash : Hold → Hold → Type 0
Clash g h = (g.mutex ≡ h.mutex) × ((g.shared ≡ false) ⊎ (h.shared ≡ false))

abbrev pub IsFree : Hold → List Thread → Type 0
IsFree h ts = All (λ (t : Thread). All (λ g. ¬ Clash g h) t.held) ts

-- One operation of one of the threads.
pub data Step (ts us : List Thread) : Type 0 where
  takes :
      (before after : List Thread) (held : List Hold) (h : Hold) (rest : List Op)
      → ts ≡ before ++ record { held = held; rest = locks h ∷ rest } ∷ after
      → us ≡ before ++ record { held = h ∷ held; rest = rest } ∷ after
      → IsFree h ts
      → Step ts us
  gives :
      (before after : List Thread) (held : List Hold) (h : Hold) (rest : List Op)
      → ts ≡ before ++ record { held = h ∷ held; rest = unlocks ∷ rest } ∷ after
      → us ≡ before ++ record { held = held; rest = rest } ∷ after
      → Step ts us

pub data Steps (ts : List Thread) : List Thread → Type 0 where
  here : Steps ts ts
  later : {us vs : List Thread} → Steps ts us → Step us vs → Steps ts vs
