-- ===== src/System/Buffers.antt =====
-- What waits for the clients in the subscriptions of storage-core/src/broadcast.cpp, against what was
-- published.
use mathlib.Core.List.{append_assoc, append-nil}
use iot_devices_ledger_audit.Prelude.{
  ℕ, ◌≡◌, refl, sym, ap, subst, ◌∙◌, inl, inr, true, false, Bool, List, [], ◌∷◌, ◌++◌, Option, none,
  some, length, set, leb, ◌==◌, arith, Bool-cases, Option-cases, some_inj,
}
use iot_devices_ledger_audit.Broadcast.{
  Broadcaster, Subscription, Item, lock, prune, expired, subscribe, release, next, take_item, push,
  new, publish,
}
use iot_devices_ledger_audit.Broadcast.Ids.{mem, mem-append, same}
use iot_devices_ledger_audit.Broadcast.Gaps.{push_closed, push_room, push_full, shift}
use iot_devices_ledger_audit.Broadcast.Fanout.{pushed_if, lock-set, lock-set-none}
use iot_devices_ledger_audit.Broadcast.Sound.{IsSound, publish_fans_out, lock-append}

module _ {ℓ} {A : Type ℓ} where
  -- `xs` ends with `ys`.
  abbrev pub Ends : List A → List A → Type ℓ
  Ends xs ys = (before : List A) × (xs ≡ before ++ ys)

  -- An open subscription is listed, and its buffer is the end of what was published.
  abbrev pub IsCurrent : List A → Broadcaster A → Type ℓ
  IsCurrent told h =
      (id : ℕ) (s : Subscription A)
      → lock h.cells id ≡ some s
      → s.closed ≡ false
      → (mem id h.subscribers ≡ true) × Ends told s.buffer

  mem-prune_live :
      (cells : List (Option (Subscription A))) (id : ℕ) (s : Subscription A) (ws : List ℕ)
      → lock cells id ≡ some s
      → mem id ws ≡ true
      → mem id (prune cells ws) ≡ true
  unfolding mem prune expired
  mem-prune_live cells id s [] l m = m
  mem-prune_live cells id s (w ∷ ws) l m = elim (Bool-cases (w == id)) [
    | inl e ↦ ground (arith, l, same w id e)
    | inr n ↦ ground (arith, mem-prune_live cells id s ws l)
  ]

  push-empty :
      (s : Subscription A) (b : A)
      → s.closed ≡ false
      → leb s.capacity (length s.buffer) ≡ true
      → s.buffer ≡ []
      → push s b ≡ none
  unfolding push
  push-empty s b c f e = ground arith

  push-Ends :
      (told : List A) (s s' : Subscription A) (b : A)
      → push s b ≡ some s'
      → s.closed ≡ false
      → Ends told s.buffer
      → Ends (told ++ b ∷ []) s'.buffer
  push-Ends told s s' b p c (before, e) = elim (Bool-cases (leb s.capacity (length s.buffer))) [
    | inr room ↦
        let is = some_inj (sym (push_room s b c (ground arith)) ∙ p) in
        subst (λ (x : Subscription A). Ends (told ++ b ∷ []) x.buffer) is
          (before, ap (λ l. l ++ b ∷ []) e ∙ append_assoc before s.buffer (b ∷ []))
    | inl full ↦ go s.buffer full refl
  ]
    where
      go :
          (l : List A)
          → leb s.capacity (length s.buffer) ≡ true
          → s.buffer ≡ l
          → Ends (told ++ b ∷ []) s'.buffer
      go [] full i = absurd (cc (push-empty s b c full i, p))
      go (o ∷ rest) full i =
          let is = some_inj (sym (push_full s b o rest c (ground arith) i) ∙ p) in
          subst (λ (x : Subscription A). Ends (told ++ b ∷ []) x.buffer) is
            (before ++ o ∷ [], ap (λ l. l ++ b ∷ []) e ∙ shift before s.buffer rest o b i)

  push-open :
      (s s' : Subscription A) (b : A) → push s b ≡ some s' → s'.closed ≡ false → s.closed ≡ false
  push-open s s' b p o = elim (Bool-cases s.closed) [
    | inr c ↦ c
    | inl c ↦ ap (λ (x : Subscription A). x.closed) (some_inj (sym (push_closed s b c) ∙ p)) ∙ o
  ]

  pushed_if-none : (m : Bool) (b : A) → pushed_if m none b ≡ none
  unfolding pushed_if
  pushed_if-none true b = refl
  pushed_if-none false b = refl

  pub publish-IsCurrent :
      (told : List A) (h h' : Broadcaster A) (b : A)
      → IsSound h
      → publish h b ≡ some h'
      → IsCurrent told h
      → IsCurrent (told ++ b ∷ []) h'
  unfolding pushed_if
  publish-IsCurrent told h h' b v p k id s' l o =
      let (x, px, subs, cells, _) = publish_fans_out h b v in
      let is : x ≡ h' = some_inj (sym px ∙ p) in
      let listed = sym (ap (λ (y : Broadcaster A). y.subscribers) is) ∙ subs in
      let cell = sym (ap (λ (y : Broadcaster A). lock y.cells id) is) ∙ cells id in
      elim (Option-cases (lock h.cells id)) [
        | inl none_there ↦
            absurd (cc (rw none_there at cell, pushed_if-none (mem id h.subscribers) b, l))
        | inr (s, there) ↦ elim (Bool-cases (mem id h.subscribers)) [
          | inl m ↦
              let pushed : push s b ≡ some s' = sym ((rw (m, there, pushed_if) at cell)) ∙ l in
              let c = push-open s s' b pushed o in
              (
                ap (mem id) listed ∙ mem-prune_live h.cells id s h.subscribers there m,
                push-Ends told s s' b pushed c (k id s there c).1,
              )
          | inr out ↦
              let kept = rw (out, there, pushed_if) at cell in
              let c = ap (λ (x : Subscription A). x.closed) (some_inj (sym kept ∙ l)) ∙ o in
              absurd (cc ((k id s there c).0, out))
        ]
      ]

  pub subscribe-IsCurrent :
      (told : List A) (h : Broadcaster A) (capacity : ℕ)
      → IsCurrent told h
      → IsCurrent told (subscribe h capacity).1
  unfolding subscribe new
  subscribe-IsCurrent told h capacity k id s l o =
      let at_end = lock-append h.cells (new capacity) id in
      let listed = mem-append id (prune h.cells h.subscribers) (length h.cells) in
      elim (Bool-cases (id == length h.cells)) [
        | inl e ↦
            let is = some_inj (sym (rw e at at_end) ∙ l) in
            (
              ground (arith, listed, e),
              subst (λ (x : Subscription A). Ends told x.buffer) is (told, sym (append-nil told)),
            )
        | inr n ↦
            let there = sym (rw n at at_end) ∙ l in
            let (m, e) = k id s there o in
            (ground (arith, listed, mem-prune_live h.cells id s h.subscribers there m), e)
      ]

  pub set-IsCurrent :
      (told : List A) (h : Broadcaster A) (w : ℕ) (sub sub' : Subscription A)
      → lock h.cells w ≡ some sub
      → (sub'.closed ≡ false → (sub.closed ≡ false) × Ends sub.buffer sub'.buffer)
      → IsCurrent told h
      → IsCurrent told (record h { cells = set h.cells w (some sub') })
  set-IsCurrent told h w sub sub' l k v id s m o =
      let there = lock-set h.cells w sub sub' id l in
      elim (Bool-cases (w == id)) [
        | inl e ↦
            let is = some_inj (sym (rw e at there) ∙ m) in
            let (c, (b2, e2)) = k (ap (λ (x : Subscription A). x.closed) is ∙ o) in
            let (listed, (b1, e1)) = v w sub l c in
            (
              subst (λ j. mem j h.subscribers ≡ true) (same w id e) listed,
              subst (λ (x : Subscription A). Ends told x.buffer) is
                  (b1 ++ b2, e1 ∙ ap (λ y. b1 ++ y) e2 ∙ sym (append_assoc b1 b2 sub'.buffer)),
            )
        | inr n ↦ v id s (sym (rw n at there) ∙ m) o
      ]

  pub release-IsCurrent :
      (told : List A) (h : Broadcaster A) (w : ℕ) → IsCurrent told h → IsCurrent told (release h w)
  unfolding release
  release-IsCurrent told h w v id s m o =
      let there = lock-set-none h.cells w id in
      elim (Bool-cases (w == id)) [
        | inl e ↦ absurd (cc (rw e at there, m))
        | inr n ↦ v id s (sym (rw n at there) ∙ m) o
      ]

  next-empty :
      (s s' : Subscription A) (item : Option (Item A))
      → s.buffer ≡ []
      → next s ≡ some (item, s')
      → s ≡ s'
  unfolding next take_item
  next-empty s s' item e h = ground arith

  next-front :
      (s s' : Subscription A) (item : Option (Item A)) (b : A) (rest : List A)
      → s.buffer ≡ b ∷ rest
      → next s ≡ some (item, s')
      → record s { buffer = rest; lagged = 0 } ≡ s'
  unfolding next take_item
  next-front s s' item b rest e h = ground arith

  pub next-Ends :
      (s s' : Subscription A) (item : Option (Item A))
      → next s ≡ some (item, s')
      → (s'.closed ≡ s.closed) × Ends s.buffer s'.buffer
  next-Ends s s' item h = go s.buffer refl
    where
      go : (l : List A) → s.buffer ≡ l → (s'.closed ≡ s.closed) × Ends s.buffer s'.buffer
      go [] e =
          subst (λ (x : Subscription A). (x.closed ≡ s.closed) × Ends s.buffer x.buffer)
            (next-empty s s' item e h) (refl, ([], refl))
      go (b ∷ rest) e =
          subst (λ (x : Subscription A). (x.closed ≡ s.closed) × Ends s.buffer x.buffer)
            (next-front s s' item b rest e h) (refl, (b ∷ [], e))
