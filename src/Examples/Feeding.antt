-- ===== src/Examples/Feeding.antt =====
-- The properties of the feed and of the signal waiter at concrete histories.
use iot_devices_ledger_audit.Prelude.{
  ℕ, ◌≤◌, ◌≡◌, refl, true, false, not, List, [], ◌∷◌, Option, none, some, Result, ok, err,
  replicate,
}
use iot_devices_ledger_audit.Prelude.Bytes.{Bytes, bytes, str_eq}
use iot_devices_ledger_audit.Json.Sample.{sample}
use iot_devices_ledger_audit.Block.{Block}
use iot_devices_ledger_audit.Broadcast.Subscriber.{Subscription}
use iot_devices_ledger_audit.Broadcast.{Broadcaster, no_subscribers, expired}
use iot_devices_ledger_audit.Broadcast
use iot_devices_ledger_audit.Broadcast.Ids.{mem}
use iot_devices_ledger_audit.Feed.{
  Conn, WsServer, returned, pump_loop, construct, connection_count, notice, lag_frame, path_of,
  find, erase, add_conn, on_open, on_close, finish, close_cell,
}
use iot_devices_ledger_audit.Feed
use iot_devices_ledger_audit.Feed.Pump.{all_frames, frames_of, pump_loop_drains}
use iot_devices_ledger_audit.Feed.Expiry.{subscriptions}
use iot_devices_ledger_audit.Feed.Release
use iot_devices_ledger_audit.Feed.Release.{stop_releases}
use iot_devices_ledger_audit.Signals.Once
use iot_devices_ledger_audit.Signals.Once.{run_once}
use iot_devices_ledger_audit.Examples.Data.{Json, second_block}

-- A closed subscription that lost two blocks before the one that waits.
abbrev behind : Subscription (Block Json)
behind = record { buffer = second_block ∷ []; capacity = 1; lagged = 2; closed = true }

abbrev frames_or_none : Result Bytes (List Bytes) → List Bytes
frames_or_none (ok frames) = frames
frames_or_none (err m) = []

abbrev two_frames : List Bytes
two_frames = frames_or_none (all_frames sample 2 (second_block ∷ []))

behind_frames : all_frames sample 2 (second_block ∷ []) ≡ ok two_frames
unfolding all_frames frames_of notice lag_frame sample
behind_frames = refl

pump_loop_drains_example :
    pump_loop sample (replicate 2 true) behind []
    ≡ (returned, record behind { buffer = []; lagged = 0 }, two_frames)
pump_loop_drains_example = pump_loop_drains sample behind [] two_frames refl behind_frames

-- Two connections open, one closes.
abbrev feed_calls : List (Release.Call ℕ)
feed_calls =
    Release.opens true (bytes "a") (bytes "/blocks?x=1")
    ∷ Release.opens true (bytes "b") (bytes "/blocks")
    ∷ Release.publishes 4
    ∷ Release.closes (bytes "a")
    ∷ []

abbrev or_new : Option (WsServer ℕ) → WsServer ℕ
or_new none = construct no_subscribers
or_new (some s) = s

abbrev one_left : WsServer ℕ
one_left = or_new (Release.run (Feed.start true (construct no_subscribers)).1 feed_calls)

feed_runs : Release.run (Feed.start true (construct no_subscribers)).1 feed_calls ≡ some one_left
unfolding Release.run Release.step on_open on_close construct add_conn find erase finish close_cell
    path_of bytes str_eq Feed.start Broadcast.subscribe Broadcast.release Broadcast.publish
    Broadcast.publish_loop Broadcast.rebuild Broadcast.keep Broadcast.lock Broadcast.flatten
    Broadcast.expired Broadcast.prune Broadcast.push Broadcast.push_back Broadcast.drop_oldest
    Broadcast.new Broadcast.close
feed_runs = refl

one_left_running : one_left.running ≡ true
unfolding Release.run Release.step on_open on_close construct add_conn find erase finish close_cell
    path_of bytes str_eq Feed.start Broadcast.subscribe Broadcast.release Broadcast.publish
    Broadcast.publish_loop Broadcast.rebuild Broadcast.keep Broadcast.lock Broadcast.flatten
    Broadcast.expired Broadcast.prune Broadcast.push Broadcast.push_back Broadcast.drop_oldest
    Broadcast.new Broadcast.close
one_left_running = refl

stop_releases_example :
    ((w : ℕ) → expired one_left.broadcaster.cells w ≡ not (mem w (subscriptions one_left.conns)))
    × (connection_count (Feed.stop [] one_left) ≡ 0)
    × ((w : ℕ) → expired (Feed.stop [] one_left).broadcaster.cells w ≡ true)
stop_releases_example = stop_releases feed_calls [] one_left feed_runs one_left_running

-- A signal arrives, the thread wakes, and the destructor comes after it.
abbrev signal_calls : List Once.Call
signal_calls = Once.arrives ∷ Once.wakes ∷ Once.winds_down ∷ Once.kills ∷ []

run_once_example :
    let t = Once.run Once.start signal_calls in
    (t.waiter.calls ≤ 1)
    × (t.waiter.calls ≡ 1 → t.arrived ≡ true)
    × (t.killed ≡ true → (Once.step t Once.wakes).waiter.waiting ≡ false)
run_once_example = run_once signal_calls
