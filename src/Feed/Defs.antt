-- ===== src/Feed/Defs.antt =====
-- `WsServer` of storage-core/include/ws.hpp and storage-core/src/ws.cpp: its connections. Each
-- function is what a callback or a method does to them and to the broadcaster; a pump is joined at
-- once, since it returns once its subscription is closed. `none` is `std::terminate`.
use iot_devices_ledger_audit.Prelude.{
  ℕ, Bool, true, false, List, [], ◌∷◌, ◌++◌, Option, none, some, length, set, if◌then◌else◌,
}
use iot_devices_ledger_audit.Prelude.Bytes.{Bytes, str_eq}
use iot_devices_ledger_audit.Broadcast.Subscriber.{close, default_capacity}
use iot_devices_ledger_audit.Broadcast.{Broadcaster, lock, subscribe, release}
use iot_devices_ledger_audit.Feed.Frames.{path_of, feed_path, close_unknown_path}

-- A connection by its id: the cell of its subscription, which its pump drains.
pub record Conn : Type 0 where
  pub id : Bytes
  pub subscription : ℕ

pub record WsServer {ℓ} (A : Type ℓ) : Type ℓ where
  pub broadcaster : Broadcaster A
  pub conns : List Conn
  pub running : Bool

-- The entry of an id, and the entries without it.
unfoldable pub find : List Conn → Bytes → Option Conn
find [] id = none
find (c ∷ cs) id = let rest = find cs id in if str_eq c.id id then some c else rest

unfoldable pub erase : List Conn → Bytes → List Conn
erase [] id = []
erase (c ∷ cs) id = let rest = erase cs id in if str_eq c.id id then cs else c ∷ rest

module _ {ℓ} {A : Type ℓ} where
  unfoldable pub construct : Broadcaster A → WsServer A
  construct b = record { broadcaster = b; conns = []; running = false }

  -- `Subscription::close` through its handle.
  unfoldable pub close_cell : Broadcaster A → ℕ → Broadcaster A
  close_cell h w = elim (lock h.cells w) [
    | none ↦ h
    | some s ↦ record h { cells = set h.cells w (some (close s)) }
  ]

  -- The subscription is closed, the pump joined, and both handles to the subscription are gone.
  unfoldable pub finish : Broadcaster A → Conn → Broadcaster A
  unfolding close_cell
  finish h c = release (close_cell h c.subscription) c.subscription

  -- A thread is stored over one that was not joined if the id is there already.
  unfoldable pub add_conn : WsServer A → Bytes → ℕ × Broadcaster A → Option (WsServer A)
  add_conn s id (w, h) = elim (find s.conns id) [
    | some c ↦ none
    | none ↦
        some (record s {
          broadcaster = h;
          conns = s.conns ++ record { id = id; subscription = w } ∷ [];
        })
  ]

  -- The close code that the socket is given, if any, and the server after the callback.
  unfoldable pub on_open : Bool → Bytes → Bytes → WsServer A → Option ℕ × Option (WsServer A)
  unfolding add_conn
  on_open alive id uri s =
      if alive
      then (if str_eq (path_of uri) feed_path
          then (none, add_conn s id (subscribe s.broadcaster default_capacity))
          else (some close_unknown_path, some s))
      else (none, some s)

  unfoldable pub on_close : Bytes → WsServer A → WsServer A
  unfolding finish
  on_close id s = elim (find s.conns id) [
    | none ↦ s
    | some c ↦ record s { broadcaster = finish s.broadcaster c; conns = erase s.conns id }
  ]

  unfoldable pub finish_all : Broadcaster A → List Conn → Broadcaster A
  unfolding finish
  finish_all h [] = h
  finish_all h (c ∷ cs) = finish_all (finish h c) cs

  unfoldable pub close_all : WsServer A → WsServer A
  unfolding finish_all
  close_all s = record s { broadcaster = finish_all s.broadcaster s.conns; conns = [] }

  -- `ok` is what `listen` answers.
  unfoldable pub start : Bool → WsServer A → Bool × WsServer A
  start ok s = if ok then (true, record s { running = true }) else (false, s)

  -- The connections that `ix::WebSocketServer::stop` winds down, one after the other.
  unfoldable pub wind_down : List Bytes → WsServer A → WsServer A
  wind_down [] s = s
  wind_down (id ∷ ids) s = wind_down ids (on_close id s)

  unfoldable pub stop : List Bytes → WsServer A → WsServer A
  unfolding wind_down close_all
  stop ids s = if s.running then close_all (wind_down ids (record s { running = false })) else s

  unfoldable pub connection_count : WsServer A → ℕ
  connection_count s = length s.conns
