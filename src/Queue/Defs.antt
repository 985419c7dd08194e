-- ===== src/Queue/Defs.antt =====
-- `WriteQueue` of storage-core/include/writer.hpp and storage-core/src/writer.cpp. Each function is
-- the part of the method that runs under the mutex. Where the predicate of the condition variable
-- is false the calling thread waits, and the result is `none`.
use iot_devices_ledger_audit.Prelude.{
  ℕ, Bool, true, false, not, ◌||◌, List, [], ◌∷◌, ◌++◌, Option, none, some, length, is_empty, ltb,
  if◌then◌else◌,
}

pub record WriteQueue {ℓ} (A : Type ℓ) : Type ℓ where
  pub items : List A
  pub capacity : ℕ
  pub closed : Bool

abbrev pub default_capacity : ℕ
default_capacity = 256

module _ {ℓ} {A : Type ℓ} where
  unfoldable pub empty : ℕ → WriteQueue A
  empty capacity = record { items = []; capacity = capacity; closed = false }

  -- `false` with the queue as it was is a refusal: the request stays with the caller.
  unfoldable pub push : WriteQueue A → A → Option (Bool × WriteQueue A)
  push q request =
      if q.closed || ltb (length q.items) q.capacity
      then (if q.closed
          then some (false, q)
          else some (true, record q { items = q.items ++ request ∷ [] }))
      else none

  take_front : WriteQueue A → List A → Option A × WriteQueue A
  take_front q [] = (none, q)
  take_front q (request ∷ rest) = (some request, record q { items = rest })

  -- `none` beside the queue is `std::nullopt`: closed and drained.
  unfoldable pub pop : WriteQueue A → Option (Option A × WriteQueue A)
  unfolding take_front
  pop q = if q.closed || not (is_empty q.items) then some (take_front q q.items) else none

  unfoldable pub close : WriteQueue A → WriteQueue A
  close q = record q { closed = true }

  unfoldable pub is_closed : WriteQueue A → Bool
  is_closed q = q.closed

  unfoldable pub size : WriteQueue A → ℕ
  size q = length q.items
