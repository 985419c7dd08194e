-- ===== src/Broadcast/Sound.antt =====
-- The `Broadcaster` of storage-core/src/broadcast.cpp keeps its list and its subscriptions sound.
use iot_devices_ledger_audit.Prelude.{
  ℕ, zero, suc, ◌<◌, ◌≡◌, ◌≢◌, refl, true, false, List, [], ◌∷◌, ◌++◌, Option, some, length,
  length-append, All-append, All, ◌==◌, if◌then◌else◌, arith,
}
use iot_devices_ledger_audit.Broadcast.Ids.{mem, Distinct, mem-append, Distinct-append, All-weaken}
use iot_devices_ledger_audit.Broadcast.Subscriber.{Subscription, new}
use iot_devices_ledger_audit.Broadcast.Fanout.{pushed_if, IsReady, publish_loop-done}
use iot_devices_ledger_audit.Broadcast.Publish.{
  Broadcaster, no_subscribers, lock, prune, subscribe, publish,
}

module _ {ℓ} {A : Type ℓ} where
  -- Every weak pointer points into the store, none twice, and live buffers have room for a block.
  pub record IsSound (h : Broadcaster A) : Type ℓ where
    pub distinct : Distinct h.subscribers
    pub in_range : All (λ w. w < length h.cells) h.subscribers
    pub ready : IsReady h.cells

  mem-prune :
      (cells : List (Option (Subscription A))) (x : ℕ) (ws : List ℕ)
      → mem x ws ≡ false
      → mem x (prune cells ws) ≡ false
  unfolding mem prune
  mem-prune cells x [] h = refl
  mem-prune cells x (w ∷ ws) h = ground (arith, mem-prune cells x ws)

  Distinct-prune :
      (cells : List (Option (Subscription A))) (ws : List ℕ)
      → Distinct ws
      → Distinct (prune cells ws)
  unfolding prune
  Distinct-prune cells [] d = tt
  Distinct-prune cells (w ∷ ws) d =
      ground (arith, Distinct-prune cells ws d.1, mem-prune cells w ws d.0)

  All-prune :
      (cells : List (Option (Subscription A))) (n : ℕ) (ws : List ℕ)
      → All (λ w. w < n) ws
      → All (λ w. w < n) (prune cells ws)
  unfolding prune
  All-prune cells n [] d = tt
  All-prune cells n (w ∷ ws) d = ground (arith, All-prune cells n ws d.1)

  pub lock-append :
      (cells : List (Option (Subscription A))) (s : Subscription A) (id : ℕ)
      → lock (cells ++ some s ∷ []) id ≡ (if id == length cells then some s else lock cells id)
  unfolding lock
  lock-append [] s zero = refl
  lock-append [] s (suc id) = ground arith
  lock-append (c ∷ cells) s zero = ground arith
  lock-append (c ∷ cells) s (suc id) = ground (arith, lock-append cells s id)

  -- One publication, by a sound broadcaster: it never waits and is defined, pushes the block into
  -- every subscription of the list that is still held, changes no other, drops the expired entries,
  -- and leaves the broadcaster sound.
  pub publish_fans_out :
      (h : Broadcaster A) (b : A)
      → IsSound h
      → (h' : Broadcaster A) × (publish h b ≡ some h')
        × (h'.subscribers ≡ prune h.cells h.subscribers)
        × ((id : ℕ) → lock h'.cells id ≡ pushed_if (mem id h.subscribers) (lock h.cells id) b)
        × IsSound h'
  unfolding publish
  publish_fans_out h b v =
      let (cells', e, l, r, n) = publish_loop-done h.cells h.subscribers b v.distinct v.ready in
      (
        record { cells = cells'; subscribers = prune h.cells h.subscribers },
        rw (e, publish),
        refl,
        l,
        record {
          distinct = Distinct-prune h.cells h.subscribers v.distinct;
          in_range =
              All-weaken (length h.cells) (length cells') _ (omega arith)
                (All-prune h.cells _ h.subscribers v.in_range);
          ready = r;
        },
      )

  -- A subscription, of capacity at least one, with a sound broadcaster: the new handle refers to a
  -- new, empty, open subscription that is on the list; no other cell changes, and the broadcaster
  -- stays sound.
  pub subscribe_lem :
      (h : Broadcaster A) (capacity : ℕ)
      → IsSound h
      → 0 < capacity
      → let id = (subscribe h capacity).0 in
        let h' = (subscribe h capacity).1 in
        (lock h'.cells id ≡ some (new capacity))
        × (mem id h'.subscribers ≡ true)
        × ((j : ℕ) → j ≢ id → lock h'.cells j ≡ lock h.cells j)
        × IsSound h'
  unfolding subscribe new
  subscribe_lem h capacity v k = (
    ground (arith, lock-append h.cells (new capacity) (length h.cells)),
    rw (mem-append (length h.cells) (prune h.cells h.subscribers) (length h.cells)) (ground arith),
    (λ j ne. ground (arith, lock-append h.cells (new capacity) j)),
    record {
      distinct =
          Distinct-append (prune h.cells h.subscribers) (length h.cells)
            (Distinct-prune h.cells h.subscribers v.distinct)
            (All-prune h.cells _ h.subscribers v.in_range);
      in_range =
          All-append (λ w. w < length (h.cells ++ some (new capacity) ∷ [])) _ _
            (All-weaken (length h.cells) _ _
              (omega (arith, length-append h.cells (some (new {A = A} capacity) ∷ [])))
              (All-prune h.cells _ h.subscribers v.in_range))
            (omega (arith, length-append h.cells (some (new {A = A} capacity) ∷ [])), tt);
      ready = λ j s t. ground (arith, lock-append h.cells (new capacity) j, v.ready j s);
    },
  )

  pub no_subscribers-IsSound : IsSound no_subscribers
  unfolding lock
  no_subscribers-IsSound = record { distinct = tt; in_range = tt; ready = λ id s h. cc }
