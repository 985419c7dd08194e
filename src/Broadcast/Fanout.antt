-- ===== src/Broadcast/Fanout.antt =====
-- The fan-out of storage-core/src/broadcast.cpp: what `publish`, `subscribe` and `close_all` do to
-- every subscription.
use iot_devices_ledger_audit.Prelude.{
  ℕ, zero, suc, ◌≤◌, ◌<◌, ◌≡◌, refl, ap, ◌∙◌, inl, inr, Bool, true, false, List, [], ◌∷◌, Option,
  none, some, length, set, ◌==◌, leb, if◌then◌else◌, arith, Bool-cases, Option-cases,
}
use iot_devices_ledger_audit.Broadcast.Ids.{mem, Distinct, same}
use iot_devices_ledger_audit.Broadcast.Subscriber.{Subscription, push}
use iot_devices_ledger_audit.Broadcast.Gaps.{push_closed, push_room, push_full}
use iot_devices_ledger_audit.Broadcast.Publish.{lock, expired, prune, publish_loop}

module _ {ℓ} {A : Type ℓ} where
  -- What a publication does to the cell of a subscriber, or leaves of another cell.
  unfoldable pub pushed_if : Bool → Option (Subscription A) → A → Option (Subscription A)
  pushed_if false o b = o
  pushed_if true none b = none
  pushed_if true (some s) b = push s b

  pub lock-set :
      (cells : List (Option (Subscription A))) (w : ℕ) (s s' : Subscription A) (id : ℕ)
      → lock cells w ≡ some s
      → lock (set cells w (some s')) id ≡ (if w == id then some s' else lock cells id)
  unfolding lock
  lock-set [] w s s' id h = cc
  lock-set (c ∷ cells) zero s s' zero h = refl
  lock-set (c ∷ cells) zero s s' (suc id) h = ground arith
  lock-set (c ∷ cells) (suc w) s s' zero h = ground arith
  lock-set (c ∷ cells) (suc w) s s' (suc id) h = ground (arith, lock-set cells w s s' id)

  pub lock-set-none :
      (cells : List (Option (Subscription A))) (w id : ℕ)
      → lock (set cells w none) id ≡ (if w == id then none else lock cells id)
  unfolding lock
  lock-set-none [] w id = ground arith
  lock-set-none (c ∷ cells) zero zero = refl
  lock-set-none (c ∷ cells) zero (suc id) = ground arith
  lock-set-none (c ∷ cells) (suc w) zero = ground arith
  lock-set-none (c ∷ cells) (suc w) (suc id) = ground (arith, lock-set-none cells w id)

  pub expired-set :
      (cells : List (Option (Subscription A))) (w : ℕ) (s s' : Subscription A) (id : ℕ)
      → lock cells w ≡ some s
      → expired (set cells w (some s')) id ≡ expired cells id
  unfolding expired
  expired-set cells w s s' id h =
      rw (lock-set cells w s s' id h, expired) (ground (arith, h, same w id))

  prune-set :
      (cells : List (Option (Subscription A))) (w : ℕ) (s s' : Subscription A) (ws : List ℕ)
      → lock cells w ≡ some s
      → prune (set cells w (some s')) ws ≡ prune cells ws
  unfolding prune
  prune-set cells w s s' [] h = refl
  prune-set cells w s s' (v ∷ ws) h = rw (expired-set cells w s s' v h, prune-set cells w s s' ws h)

  abbrev pub IsReady : List (Option (Subscription A)) → Type ℓ
  IsReady cells = (id : ℕ) (s : Subscription A) → lock cells id ≡ some s → 0 < s.capacity

  pub push-total :
      (s : Subscription A) (b : A)
      → 0 < s.capacity
      → (s' : Subscription A) × (push s b ≡ some s') × (s'.capacity ≡ s.capacity)
  push-total s b h = elim (Bool-cases s.closed) [
    | inl c ↦ (s, push_closed s b c, refl)
    | inr c ↦ elim (Bool-cases (leb s.capacity (length s.buffer))) [
      | inr room ↦ (_, push_room s b c (ground arith), refl)
      | inl full ↦ full_case s.buffer c (ground arith) refl
    ]
  ]
    where
      full_case :
          (l : List A)
          → s.closed ≡ false
          → s.capacity ≤ length s.buffer
          → s.buffer ≡ l
          → (s' : Subscription A) × (push s b ≡ some s') × (s'.capacity ≡ s.capacity)
      full_case [] c f x = absurd (omega (arith, ap length x))
      full_case (o ∷ rest) c f x = (_, push_full s b o rest c f x, refl)

  pub IsReady-set :
      (cells : List (Option (Subscription A))) (w : ℕ) (s s' : Subscription A)
      → lock cells w ≡ some s
      → s'.capacity ≡ s.capacity
      → IsReady cells
      → IsReady (set cells w (some s'))
  IsReady-set cells w s s' h e r id t k =
      ground (arith, lock-set cells w s s' id h, r id t, r w s h)

  pub length-set :
      (cells : List (Option (Subscription A))) (w : ℕ) (o : Option (Subscription A))
      → length (set cells w o) ≡ length cells
  length-set [] w o = refl
  length-set (c ∷ cells) zero o = refl
  length-set (c ∷ cells) (suc w) o = ap suc (length-set cells w o)

  -- The loop, from any cells and any distinct weak pointers.
  abbrev pub LoopDone : List (Option (Subscription A)) → List ℕ → A → Type ℓ
  LoopDone cells ws b =
      (cells' : List (Option (Subscription A))) × (publish_loop cells ws b
        ≡ some (cells', prune cells ws))
      × ((id : ℕ) → lock cells' id ≡ pushed_if (mem id ws) (lock cells id) b)
      × IsReady cells'
      × (length cells' ≡ length cells)

  publish_loop-gone :
      (cells : List (Option (Subscription A))) (w : ℕ) (ws : List ℕ) (b : A)
      → lock cells w ≡ none
      → LoopDone cells ws b
      → LoopDone cells (w ∷ ws) b
  unfolding publish_loop prune expired mem pushed_if
  publish_loop-gone cells w ws b h (cells', e, l, r, n) = (
    cells',
    rw (h, publish_loop, prune, expired) e,
    (λ id. ground (arith, l id, same w id)),
    r,
    n,
  )

  publish_loop-live :
      (cells : List (Option (Subscription A))) (w : ℕ) (ws : List ℕ) (b : A) (s s' : Subscription A)
      → mem w ws ≡ false
      → lock cells w ≡ some s
      → push s b ≡ some s'
      → LoopDone (set cells w (some s')) ws b
      → LoopDone cells (w ∷ ws) b
  unfolding publish_loop prune expired mem pushed_if
  publish_loop-live cells w ws b s s' d h p (cells', e, l, r, n) = (
    cells',
    rw (h, publish_loop, prune, expired, p, e) (ground (arith, prune-set cells w s s' ws h)),
    (λ id. ground (arith, l id, same w id, lock-set cells w s s' id h)),
    r,
    n ∙ length-set cells w (some s'),
  )

  pub publish_loop-done :
      (cells : List (Option (Subscription A))) (ws : List ℕ) (b : A)
      → Distinct ws
      → IsReady cells
      → LoopDone cells ws b
  unfolding publish_loop mem pushed_if prune
  publish_loop-done cells [] b d r = (cells, refl, λ id. refl, r, refl)
  publish_loop-done cells (w ∷ ws) b d r = elim (Option-cases (lock cells w)) [
    | inl h ↦ publish_loop-gone cells w ws b h (publish_loop-done cells ws b d.1 r)
    | inr (s, h) ↦
        let (s', p, k) = push-total s b (r w s h) in
        publish_loop-live cells w ws b s s' d.0 h p
          (publish_loop-done (set cells w (some s')) ws b d.1 (IsReady-set cells w s s' h k r))
  ]
