-- ===== src/System/Hub.antt =====
-- The broadcaster of storage-core/src/broadcast.cpp stays sound under what connections do to it.
use iot_devices_ledger_audit.Prelude.{
  ℕ, ◌≡◌, refl, List, [], ◌∷◌, Option, none, some, length, set, arith,
}
use iot_devices_ledger_audit.Broadcast.{
  Broadcaster, Subscription, Item, lock, release, next, close, take_item,
}
use iot_devices_ledger_audit.Broadcast.Ids.{All-weaken}
use iot_devices_ledger_audit.Broadcast.Fanout.{IsReady-set, length-set, lock-set-none}
use iot_devices_ledger_audit.Broadcast.Sound.{IsSound}

module _ {ℓ} {A : Type ℓ} where
  pub release-IsSound : (h : Broadcaster A) (id : ℕ) → IsSound h → IsSound (release h id)
  unfolding release
  release-IsSound h id v = record {
    distinct = v.distinct;
    in_range =
        All-weaken (length h.cells) (length (set h.cells id none)) h.subscribers
          (omega (arith, length-set h.cells id none)) v.in_range;
    ready = λ j s k. ground (arith, lock-set-none h.cells id j, v.ready j s);
  }

  -- A subscription may change, but for its capacity.
  pub set-IsSound :
      (h : Broadcaster A) (id : ℕ) (sub sub' : Subscription A)
      → lock h.cells id ≡ some sub
      → sub'.capacity ≡ sub.capacity
      → IsSound h
      → IsSound (record h { cells = set h.cells id (some sub') })
  set-IsSound h id sub sub' l c v = record {
    distinct = v.distinct;
    in_range =
        All-weaken (length h.cells) (length (set h.cells id (some sub'))) h.subscribers
          (omega (arith, length-set h.cells id (some sub'))) v.in_range;
    ready = IsReady-set h.cells id sub sub' l c v.ready;
  }

  take_item-capacity : (s : Subscription A) (bs : List A) → (take_item s bs).1.capacity ≡ s.capacity
  unfolding take_item
  take_item-capacity s [] = refl
  take_item-capacity s (b ∷ bs) = refl

  pub next-capacity :
      (s s' : Subscription A) (item : Option (Item A))
      → next s ≡ some (item, s')
      → s'.capacity ≡ s.capacity
  unfolding next
  next-capacity s s' item h = ground (arith, take_item-capacity s s.buffer)

  pub close-capacity : (s : Subscription A) → (close s).capacity ≡ s.capacity
  unfolding close
  close-capacity s = refl
