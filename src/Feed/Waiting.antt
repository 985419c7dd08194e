-- ===== src/Feed/Waiting.antt =====
-- The waiting in `Subscription` of storage-core/src/broadcast.cpp and the thread of `pump_loop` of
-- storage-core/src/ws.cpp that waits there: where the pump stands between two critical sections, and
-- which notifications are still owed, since the code notifies after it has released the mutex.
use iot_devices_ledger_audit.Prelude.{
  ℕ, zero, suc, Bool, true, false, List, [], ◌∷◌, Option, none, some, if◌then◌else◌,
}
use iot_devices_ledger_audit.Prelude.Bytes.{Bytes}
use iot_devices_ledger_audit.Json.{Library}
use iot_devices_ledger_audit.Block.{Block}
use iot_devices_ledger_audit.Broadcast.Subscriber.{Subscription, Item, new, push, next, close}
use iot_devices_ledger_audit.Feed.Frames.{send_item}

pub data Place (Json : Type 0) : Type 0 where
  -- in `next`, about to evaluate the predicate of the wait, and asleep
  awake asleep : Place Json
  -- `next` has given an item, and `weak_ws.lock()` comes next
  holds : Item (Block Json) → Place Json
  returned : Place Json
  threw : Bytes → Place Json

pub record Pump (Json : Type 0) : Type 0 where
  pub sub : Subscription (Block Json)
  pub place : Place Json
  -- the frames that the socket was given
  pub sent : List Bytes
  -- `notify_one` that are owed, and whether `notify_all` is
  pub owed_one : ℕ
  pub owed_all : Bool

pub data Move (Json : Type 0) : Type 0 where
  -- the writer pushes a block, and sends its notification
  pushes : Block Json → Move Json
  notifies : Move Json
  -- the connection closes the subscription, and sends its notification
  closes notifies_all : Move Json
  -- the pump holds the mutex and evaluates the predicate
  looks : Move Json
  -- the pump locks the weak pointer, which succeeds or not, and sends
  sends : Bool → Move Json
  -- a spurious wake-up
  stirs : Move Json

module _ {Json : Type 0} where
  abbrev pub begin : ℕ → Pump Json
  begin capacity = record {
    sub = new capacity;
    place = awake;
    sent = [];
    owed_one = 0;
    owed_all = false;
  }

  -- A push into a closed subscription returns before the notification.
  unfoldable pub after_push : Pump Json → Option (Subscription (Block Json)) → Option (Pump Json)
  after_push p none = none
  after_push p (some s) =
      some (record p { sub = s; owed_one = if p.sub.closed then p.owed_one else suc p.owed_one })

  unfoldable pub wake : Pump Json → Place Json → Pump Json
  wake p asleep = record p { place = awake }
  wake p awake = p
  wake p (holds i) = p
  wake p returned = p
  wake p (threw m) = p

  -- `notify_one` wakes the pump if it sleeps.
  unfoldable pub notify_one : Pump Json → ℕ → Pump Json
  unfolding wake
  notify_one p zero = p
  notify_one p (suc n) = wake (record p { owed_one = n }) p.place

  unfoldable pub notify_all : Pump Json → Bool → Pump Json
  unfolding wake
  notify_all p false = p
  notify_all p true = wake (record p { owed_all = false }) p.place

  -- The wait and what stands behind it in `next`.
  unfoldable pub after_next :
      Pump Json → Option (Option (Item (Block Json)) × Subscription (Block Json)) → Pump Json
  after_next p none = record p { place = asleep }
  after_next p (some (none, s)) = record p { sub = s; place = returned }
  after_next p (some (some i, s)) = record p { sub = s; place = holds i }

  unfoldable pub look : Pump Json → Place Json → Pump Json
  unfolding after_next
  look p awake = after_next p (next p.sub)
  look p asleep = p
  look p (holds i) = p
  look p returned = p
  look p (threw m) = p

module _ (lib : Library) where
  open lib use {Json}

  unfoldable pub after_send : Pump Json → Option Bytes × List Bytes → Pump Json
  after_send p (none, sent) = record p { sent = sent; place = awake }
  after_send p (some m, sent) = record p { sent = sent; place = threw m }

  unfoldable pub send : Pump Json → Bool → Place Json → Pump Json
  unfolding after_send
  send p false (holds i) = record p { place = returned }
  send p true (holds i) = after_send p (send_item lib i p.sent)
  send p alive awake = p
  send p alive asleep = p
  send p alive returned = p
  send p alive (threw m) = p

  -- A move that is not open changes nothing; `none` is undefined behaviour of a push.
  unfoldable pub step : Pump Json → Move Json → Option (Pump Json)
  unfolding after_push notify_one notify_all wake look send
  step p (pushes b) = after_push p (push p.sub b)
  step p notifies = some (notify_one p p.owed_one)
  step p closes = some (record p { sub = close p.sub; owed_all = true })
  step p notifies_all = some (notify_all p p.owed_all)
  step p looks = some (look p p.place)
  step p (sends alive) = some (send p alive p.place)
  step p stirs = some (wake p p.place)

  unfoldable pub run : Pump Json → List (Move Json) → Option (Pump Json)
  run p [] = some p
  run p (x ∷ xs) = elim (step p x) [ none ↦ none | some p' ↦ run p' xs ]
