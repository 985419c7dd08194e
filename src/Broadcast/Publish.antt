-- ===== src/Broadcast/Publish.antt =====
-- `Broadcaster` of storage-core/include/broadcast.hpp and storage-core/src/broadcast.cpp. The shared
-- subscriptions are cells of a store: a cell is empty once the last `shared_ptr` to it is gone,
-- which is when `weak_ptr::lock` fails. The list of weak pointers is a list of cells' numbers.
use iot_devices_ledger_audit.Prelude.{
  ℕ, Bool, true, false, List, [], ◌∷◌, ◌++◌, Option, none, some, length, get_elem?, set,
  if◌then◌else◌,
}
use iot_devices_ledger_audit.Broadcast.Subscriber.{Subscription, new, push, close}

pub record Broadcaster {ℓ} (A : Type ℓ) : Type ℓ where
  pub cells : List (Option (Subscription A))
  pub subscribers : List ℕ

module _ {ℓ} {A : Type ℓ} where
  unfoldable pub flatten : Option (Option (Subscription A)) → Option (Subscription A)
  flatten none = none
  flatten (some o) = o

  -- `weak_ptr::lock`
  unfoldable pub lock : List (Option (Subscription A)) → ℕ → Option (Subscription A)
  unfolding flatten
  lock cells w = flatten (get_elem? cells w)

  unfoldable pub expired : List (Option (Subscription A)) → ℕ → Bool
  expired cells w = elim (lock cells w) [ none ↦ true | some s ↦ false ]

  -- `std::erase_if` by expiry.
  unfoldable pub prune : List (Option (Subscription A)) → List ℕ → List ℕ
  unfolding expired
  prune cells [] = []
  prune cells (w ∷ ws) = let rest = prune cells ws in if expired cells w then rest else w ∷ rest

  abbrev pub no_subscribers : Broadcaster A
  no_subscribers = record { cells = []; subscribers = [] }

  -- The new handle is the number of its cell.
  unfoldable pub subscribe : Broadcaster A → ℕ → ℕ × Broadcaster A
  subscribe h capacity =
      let id = length h.cells in
      (
        id,
        record {
          cells = h.cells ++ some (new capacity) ∷ [];
          subscribers = prune h.cells h.subscribers ++ id ∷ [];
        },
      )

  -- The last handle of a subscription goes out of scope.
  unfoldable pub release : Broadcaster A → ℕ → Broadcaster A
  release h id = record h { cells = set h.cells id none }

  unfoldable pub keep :
      ℕ
      → Option (List (Option (Subscription A)) × List ℕ)
      → Option (List (Option (Subscription A)) × List ℕ)
  keep w none = none
  keep w (some (cells, ws)) = some (cells, w ∷ ws)

  -- The loop of `publish`: the cells after it and the weak pointers that stay; `none` is undefined
  -- behaviour in a push.
  unfoldable pub publish_loop :
      List (Option (Subscription A)) → List ℕ → A → Option (List (Option (Subscription A)) × List ℕ)
  unfolding keep
  publish_loop cells [] b = some (cells, [])
  publish_loop cells (w ∷ ws) b = elim (lock cells w) [
    | none ↦ publish_loop cells ws b
    | some s ↦ elim (push s b) [
      | none ↦ none
      | some s' ↦ keep w (publish_loop (set cells w (some s')) ws b)
    ]
  ]

  unfoldable pub rebuild : Option (List (Option (Subscription A)) × List ℕ) → Option (Broadcaster A)
  rebuild none = none
  rebuild (some (cells, ws)) = some (record { cells = cells; subscribers = ws })

  unfoldable pub publish : Broadcaster A → A → Option (Broadcaster A)
  unfolding publish_loop rebuild
  publish h b = rebuild (publish_loop h.cells h.subscribers b)

  unfoldable pub close_loop :
      List (Option (Subscription A)) → List ℕ → List (Option (Subscription A))
  close_loop cells [] = cells
  close_loop cells (w ∷ ws) = elim (lock cells w) [
    | none ↦ close_loop cells ws
    | some s ↦ close_loop (set cells w (some (close s))) ws
  ]

  unfoldable pub close_all : Broadcaster A → Broadcaster A
  unfolding close_loop
  close_all h = record { cells = close_loop h.cells h.subscribers; subscribers = [] }

  unfoldable pub subscriber_count : Broadcaster A → ℕ
  subscriber_count h = length (prune h.cells h.subscribers)
