-- ===== src/Signals/Once.antt =====
-- Histories of a `SignalWaiter` of storage-core/src/signals.cpp: signals that arrive, the thread that
-- wakes, and the destructor.
use iot_devices_ledger_audit.Prelude.{
  ◌≤◌, ◌≡◌, refl, Bool, true, false, ◌||◌, List, [], ◌∷◌, if◌then◌else◌, arith,
}
use iot_devices_ledger_audit.Signals.Defs.{SignalWaiter, constructed, arrive, wake, wind_down, kill}

pub data Call : Type 0 where
  arrives wakes winds_down kills : Call

-- A waiter with whether a signal has arrived and whether the destructor has sent its own.
pub record Trace : Type 0 where
  pub waiter : SignalWaiter
  pub arrived : Bool
  pub killed : Bool

-- The destructor kills only after it has wound down.
pub step : Trace → Call → Trace
step t arrives = record t { waiter = arrive t.waiter; arrived = true }
step t wakes = record t { waiter = wake t.waiter }
step t winds_down = record t { waiter = wind_down t.waiter }
step t kills =
    if t.waiter.winding_down then record t { waiter = kill t.waiter; killed = true } else t

pub run : Trace → List Call → Trace
run t [] = t
run t (c ∷ cs) = run (step t c) cs

abbrev pub start : Trace
start = record { waiter = constructed; arrived = false; killed = false }

record Inv (t : Trace) : Type 0 where
  unused : t.waiter.waiting ≡ true → t.waiter.calls ≡ 0
  once : t.waiter.calls ≤ 1
  caused : t.waiter.calls ≡ 1 → t.arrived ≡ true
  origin : t.waiter.pending ≡ true → (t.arrived || t.waiter.winding_down) ≡ true
  woken : t.killed ≡ true → t.waiter.waiting ≡ true → t.waiter.pending ≡ true

step-Inv : (t : Trace) (c : Call) → Inv t → Inv (step t c)
unfolding step arrive wake wind_down kill
step-Inv t arrives v = ground arith
step-Inv t wakes v = ground arith
step-Inv t winds_down v = ground arith
step-Inv t kills v = ground arith

run-Inv : (t : Trace) (cs : List Call) → Inv t → Inv (run t cs)
unfolding run
run-Inv t [] v = v
run-Inv t (c ∷ cs) v = run-Inv (step t c) cs (step-Inv t c v)

wake_ends :
    (t : Trace)
    → (t.waiter.waiting ≡ true → t.waiter.pending ≡ true)
    → (step t wakes).waiter.waiting ≡ false
unfolding step wake
wake_ends t h = ground arith

-- After any history, the callback has run at most once, and only if a signal had arrived; and once
-- the destructor has sent its own signal, the next wake-up of the thread is its last, so that the
-- join returns.
pub run_once :
    (cs : List Call)
    → let t = run start cs in
      (t.waiter.calls ≤ 1)
      × (t.waiter.calls ≡ 1 → t.arrived ≡ true)
      × (t.killed ≡ true → (step t wakes).waiter.waiting ≡ false)
run_once cs =
    let v = run-Inv start cs (record {
      unused = λ _. refl;
      once = omega arith;
      caused = λ h. absurd (omega arith);
      origin = λ h. absurd (cc h);
      woken = λ h. absurd (cc h);
    }) in
    (v.once, v.caused, (λ k. wake_ends (run start cs) (v.woken k)))
