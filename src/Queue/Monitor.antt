-- ===== src/Queue/Monitor.antt =====
-- The waiting in `WriteQueue` of storage-core/src/writer.cpp: which threads sleep on `not_full_` and
-- on `not_empty_`, which are awake and about to look at the queue, and which notifications are still
-- owed, since the code notifies after it has released the mutex.
use iot_devices_ledger_audit.Prelude.{
  ℕ, zero, suc, ◌+◌, Bool, true, false, List, [], ◌∷◌, Option, none, some,
}
use iot_devices_ledger_audit.Queue.Defs.{WriteQueue, empty, push, pop, close}

pub record Monitor {ℓ} (A : Type ℓ) : Type ℓ where
  pub queue : WriteQueue A
  pub asleep_push : ℕ
  pub awake_push : ℕ
  pub asleep_pop : ℕ
  pub awake_pop : ℕ
  -- `notify_one` that are owed
  pub owed_empty : ℕ
  pub owed_full : ℕ
  -- `notify_all` that are owed
  pub all_empty : Bool
  pub all_full : Bool

pub data Move {ℓ} (A : Type ℓ) : Type ℓ where
  -- a thread calls `push` or `pop`
  calls_push calls_pop : Move A
  -- an awake thread holds the mutex and evaluates the predicate of its wait
  looks_push : A → Move A
  looks_pop : Move A
  -- a notification is sent
  sends_empty sends_full sends_all_empty sends_all_full : Move A
  closes : Move A
  -- a spurious wake-up
  stirs_push stirs_pop : Move A

module _ {ℓ} {A : Type ℓ} where
  abbrev pub unused : ℕ → Monitor A
  unused capacity = record {
    queue = empty capacity;
    asleep_push = 0;
    awake_push = 0;
    asleep_pop = 0;
    awake_pop = 0;
    owed_empty = 0;
    owed_full = 0;
    all_empty = false;
    all_full = false;
  }

  -- `rest` other pushers are awake.
  unfoldable pub looked_push : Monitor A → ℕ → Option (Bool × WriteQueue A) → Monitor A
  looked_push m rest none = record m { awake_push = rest; asleep_push = suc m.asleep_push }
  looked_push m rest (some (false, q)) = record m { queue = q; awake_push = rest }
  looked_push m rest (some (true, q)) = record m {
    queue = q;
    awake_push = rest;
    owed_empty = suc m.owed_empty;
  }

  unfoldable pub looked_pop : Monitor A → ℕ → Option (Option A × WriteQueue A) → Monitor A
  looked_pop m rest none = record m { awake_pop = rest; asleep_pop = suc m.asleep_pop }
  looked_pop m rest (some (none, q)) = record m { queue = q; awake_pop = rest }
  looked_pop m rest (some (some x, q)) = record m {
    queue = q;
    awake_pop = rest;
    owed_full = suc m.owed_full;
  }

  unfoldable pub wake_push : Monitor A → ℕ → Monitor A
  wake_push m zero = m
  wake_push m (suc n) = record m { asleep_push = n; awake_push = suc m.awake_push }

  unfoldable pub wake_pop : Monitor A → ℕ → Monitor A
  wake_pop m zero = m
  wake_pop m (suc n) = record m { asleep_pop = n; awake_pop = suc m.awake_pop }

  unfoldable pub look_push : Monitor A → A → ℕ → Monitor A
  unfolding looked_push
  look_push m request zero = m
  look_push m request (suc n) = looked_push m n (push m.queue request)

  unfoldable pub look_pop : Monitor A → ℕ → Monitor A
  unfolding looked_pop
  look_pop m zero = m
  look_pop m (suc n) = looked_pop m n (pop m.queue)

  unfoldable pub send_empty : Monitor A → ℕ → Monitor A
  unfolding wake_pop
  send_empty m zero = m
  send_empty m (suc n) = wake_pop (record m { owed_empty = n }) m.asleep_pop

  unfoldable pub send_full : Monitor A → ℕ → Monitor A
  unfolding wake_push
  send_full m zero = m
  send_full m (suc n) = wake_push (record m { owed_full = n }) m.asleep_push

  unfoldable pub send_all_empty : Monitor A → Bool → Monitor A
  send_all_empty m false = m
  send_all_empty m true = record m {
    all_empty = false;
    asleep_pop = 0;
    awake_pop = m.awake_pop + m.asleep_pop;
  }

  unfoldable pub send_all_full : Monitor A → Bool → Monitor A
  send_all_full m false = m
  send_all_full m true = record m {
    all_full = false;
    asleep_push = 0;
    awake_push = m.awake_push + m.asleep_push;
  }

  -- A move that is not open (nobody is awake, or nothing is owed) changes nothing.
  unfoldable pub step : Monitor A → Move A → Monitor A
  unfolding look_push look_pop send_empty send_full send_all_empty send_all_full
  step m calls_push = record m { awake_push = suc m.awake_push }
  step m calls_pop = record m { awake_pop = suc m.awake_pop }
  step m (looks_push request) = look_push m request m.awake_push
  step m looks_pop = look_pop m m.awake_pop
  step m sends_empty = send_empty m m.owed_empty
  step m sends_full = send_full m m.owed_full
  step m sends_all_empty = send_all_empty m m.all_empty
  step m sends_all_full = send_all_full m m.all_full
  step m closes = record m { queue = close m.queue; all_empty = true; all_full = true }
  step m stirs_push = wake_push m m.asleep_push
  step m stirs_pop = wake_pop m m.asleep_pop

  unfoldable pub run : Monitor A → List (Move A) → Monitor A
  run m [] = m
  run m (x ∷ xs) = run (step m x) xs
