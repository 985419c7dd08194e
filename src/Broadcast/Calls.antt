-- ===== src/Broadcast/Calls.antt =====
-- Histories of one `Subscription` of storage-core/src/broadcast.cpp, in which a publisher, a consumer
-- and `close` interleave.
use iot_devices_ledger_audit.Prelude.{ℕ, if◌then◌else◌, List, [], ◌∷◌, ◌++◌, Option, none, some}
use iot_devices_ledger_audit.Broadcast.Subscriber.{
  Subscription, Item, new, push, next, try_next, close, is_closed,
}

pub data Call {ℓ} (A : Type ℓ) : Type ℓ where
  pushes : A → Call A
  nexts tries closes : Call A

-- A subscription with the blocks published to it while it was open and the items delivered.
pub record Trace {ℓ} (A : Type ℓ) : Type ℓ where
  pub sub : Subscription A
  pub published : List A
  pub delivered : List (Item A)

module _ {ℓ} {A : Type ℓ} where
  unfoldable pub after_push : Trace A → A → Option (Subscription A) → Option (Trace A)
  after_push t b none = none
  after_push t b (some s) = some (record t {
    sub = s;
    published = if is_closed t.sub then t.published else t.published ++ b ∷ [];
  })

  unfoldable pub after_take : Trace A → Option (Item A) × Subscription A → Trace A
  after_take t (none, s) = record t { sub = s }
  after_take t (some i, s) = record t { sub = s; delivered = t.delivered ++ i ∷ [] }

  unfoldable pub after_next : Trace A → Option (Option (Item A) × Subscription A) → Trace A
  after_next t none = t
  after_next t (some r) = after_take t r

  -- `none` is undefined behaviour; a `next` that waits changes nothing.
  unfoldable pub step : Trace A → Call A → Option (Trace A)
  unfolding after_push after_take after_next is_closed
  step t (pushes b) = after_push t b (push t.sub b)
  step t nexts = some (after_next t (next t.sub))
  step t tries = some (after_take t (try_next t.sub))
  step t closes = some (record t { sub = close t.sub })

  unfoldable pub run : Trace A → List (Call A) → Option (Trace A)
  run t [] = some t
  run t (c ∷ cs) = elim (step t c) [ none ↦ none | some t' ↦ run t' cs ]

  abbrev pub start : ℕ → Trace A
  start capacity = record { sub = new capacity; published = []; delivered = [] }
