-- ===== src/Signals/Defs.antt =====
-- `SignalWaiter` of storage-core/src/signals.cpp: the steps of its thread and of its destructor.
use iot_devices_ledger_audit.Prelude.{ℕ, ◌+◌, Bool, true, false, ◌&&◌, if◌then◌else◌}

-- `pending`: a signal of the mask waits for `sigwait`. `waiting`: the thread is in its loop.
pub record SignalWaiter : Type 0 where
  pub pending : Bool
  pub waiting : Bool
  pub winding_down : Bool
  -- The calls of `on_signal` so far.
  pub calls : ℕ

-- The constructor blocks both signals before it starts the thread.
abbrev pub constructed : SignalWaiter
constructed = record { pending = false; waiting = true; winding_down = false; calls = 0 }

-- SIGTERM or SIGINT arrives at the process, where every thread blocks it.
unfoldable pub arrive : SignalWaiter → SignalWaiter
arrive w = record w { pending = true }

unfoldable pub taken : SignalWaiter → SignalWaiter
taken w =
    if w.winding_down
    then record w { pending = false; waiting = false }
    else record w { pending = false; waiting = false; calls = w.calls + 1 }

-- `sigwait` returns, if it can, and the thread runs to its end.
unfoldable pub wake : SignalWaiter → SignalWaiter
unfolding taken
wake w = if w.waiting && w.pending then taken w else w

-- The destructor's store, and then its `pthread_kill`.
unfoldable pub wind_down : SignalWaiter → SignalWaiter
wind_down w = record w { winding_down = true }

unfoldable pub kill : SignalWaiter → SignalWaiter
kill w = record w { pending = true }
