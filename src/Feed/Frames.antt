-- ===== src/Feed/Frames.antt =====
-- The frames of storage-core/src/ws.cpp, and the loop of the thread that sends them.
use iot_devices_ledger_audit.Prelude.{
  ℕ, Bool, true, false, List, [], ◌∷◌, ◌++◌, Option, none, some, Result, ok, err, ◌>>=◌, ltb, ◌==◌,
  if◌then◌else◌,
}
use iot_devices_ledger_audit.Prelude.Bytes.{Bytes, bytes}
use iot_devices_ledger_audit.Json.{Library}
use iot_devices_ledger_audit.Block.{Block, block_to_json}
use iot_devices_ledger_audit.Broadcast.Subscriber.{Subscription, Item, next}

-- `kFeedPath` and `kCloseUnknownPath`
abbrev pub feed_path : Bytes
feed_path = bytes "/blocks"

abbrev pub close_unknown_path : ℕ
close_unknown_path = 1008

-- What stands before the first question mark.
unfoldable pub path_of : Bytes → Bytes
path_of [] = []
path_of (c ∷ uri) = let rest = path_of uri in if c == b'?' then [] else c ∷ rest

-- How the pump stands: it waits in `next`, it has returned, or an exception has left its thread.
pub data Status : Type 0 where
  waits returned : Status
  threw : Bytes → Status

module _ (lib : Library) where
  open lib use {Json, of_uint, of_str, of_fields, dump}

  unfoldable pub lag_frame : ℕ → Result Bytes Bytes
  lag_frame dropped = dump (
      of_fields ((bytes "type", of_str (bytes "lagged")) ∷ (bytes "dropped", of_uint dropped) ∷ []))

  -- The lag notice, if blocks were lost.
  unfoldable pub notice : ℕ → Result Bytes (List Bytes)
  unfolding lag_frame
  notice lagged = if ltb 0 lagged then (lag_frame lagged >>= λ frame. ok (frame ∷ [])) else ok []

  -- One item is sent: the message of what was thrown, if anything was, and the frames sent by then.
  unfoldable pub send_item : Item (Block Json) → List Bytes → Option Bytes × List Bytes
  send_item item sent = elim (notice item.lagged) [
    | err message ↦ (some message, sent)
    | ok frames ↦ elim (dump (block_to_json lib item.block)) [
      | err message ↦ (some message, sent ++ frames)
      | ok frame ↦ (none, sent ++ (frames ++ frame ∷ []))
    ]
  ]

  -- Rounds of the loop, over what `weak_ws.lock()` finds in each of them: the subscription and the
  -- frames that the socket was given. With no round left the pump is about to call `next`.
  unfoldable pub pump_loop :
      List Bool
      → Subscription (Block Json)
      → List Bytes
      → Status × Subscription (Block Json) × List Bytes
  pump_loop [] s sent = (waits, s, sent)
  pump_loop (alive ∷ rounds) s sent = elim (next s) [
    | none ↦ (waits, s, sent)
    | some (none, s') ↦ (returned, s', sent)
    | some (some item, s') ↦ elim alive [
      | false ↦ (returned, s', sent)
      | true ↦
          let (thrown, sent') = send_item item sent in
          elim thrown [
            | some message ↦ (threw message, s', sent')
            | none ↦ pump_loop rounds s' sent'
          ]
    ]
  ]
