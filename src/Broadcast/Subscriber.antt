-- ===== src/Broadcast/Subscriber.antt =====
-- `Subscription` of storage-core/include/broadcast.hpp and storage-core/src/broadcast.cpp. Each
-- function is the part of the method that runs under the mutex.
use iot_devices_ledger_audit.Prelude.{
  ℕ, ◌+◌, ◌%◌, ◌^◌, Bool, true, false, not, ◌||◌, List, [], ◌∷◌, ◌++◌, Option, none, some, length,
  is_empty, leb, if◌then◌else◌,
}

pub record Subscription {ℓ} (A : Type ℓ) : Type ℓ where
  pub buffer : List A
  pub capacity : ℕ
  pub lagged : ℕ
  pub closed : Bool

-- `Subscription::Item`
pub record Item {ℓ} (A : Type ℓ) : Type ℓ where
  pub block : A
  pub lagged : ℕ

abbrev pub default_capacity : ℕ
default_capacity = 64

module _ {ℓ} {A : Type ℓ} where
  unfoldable pub new : ℕ → Subscription A
  new capacity = record { buffer = []; capacity = capacity; lagged = 0; closed = false }

  -- `pop_front` of an empty deque is undefined.
  unfoldable pub drop_oldest : Subscription A → List A → Option (Subscription A)
  drop_oldest s [] = none
  drop_oldest s (oldest ∷ rest) =
      some (record s { buffer = rest; lagged = (s.lagged + 1) % 2 ^ 64 })

  unfoldable pub push_back : A → Option (Subscription A) → Option (Subscription A)
  push_back b none = none
  push_back b (some s) = some (record s { buffer = s.buffer ++ b ∷ [] })

  -- `none` is undefined behaviour.
  unfoldable pub push : Subscription A → A → Option (Subscription A)
  unfolding drop_oldest push_back
  push s b =
      if s.closed
      then some s
      else if leb s.capacity (length s.buffer)
      then push_back b (drop_oldest s s.buffer)
      else push_back b (some s)

  unfoldable pub take_item : Subscription A → List A → Option (Item A) × Subscription A
  take_item s [] = (none, s)
  take_item s (b ∷ rest) =
      (some (record { block = b; lagged = s.lagged }), record s { buffer = rest; lagged = 0 })

  -- `none` where the consumer waits; `none` beside the state is `std::nullopt`.
  unfoldable pub next : Subscription A → Option (Option (Item A) × Subscription A)
  unfolding take_item
  next s = if s.closed || not (is_empty s.buffer) then some (take_item s s.buffer) else none

  unfoldable pub try_next : Subscription A → Option (Item A) × Subscription A
  unfolding take_item
  try_next s = take_item s s.buffer

  unfoldable pub close : Subscription A → Subscription A
  close s = record s { closed = true }

  unfoldable pub is_closed : Subscription A → Bool
  is_closed s = s.closed

  unfoldable pub buffered : Subscription A → ℕ
  buffered s = length s.buffer

  unfoldable pub pending_lag : Subscription A → ℕ
  pending_lag s = s.lagged
