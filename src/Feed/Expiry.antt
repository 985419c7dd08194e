-- ===== src/Feed/Expiry.antt =====
-- Which subscriptions are held, after the calls that the connections of storage-core/src/ws.cpp make.
use iot_devices_ledger_audit.Prelude.{
  ℕ, zero, suc, ◌≤◌, ◌≡◌, refl, sym, ap, ◌∙◌, true, false, ◌||◌, List, [], ◌∷◌, ◌++◌, Option, none,
  some, length, set, ◌==◌, if◌then◌else◌, arith, Option-cases, Bool-cases, inl, inr, some_inj,
}
use iot_devices_ledger_audit.Prelude.Bytes.{Bytes, str_eq}
use iot_devices_ledger_audit.Broadcast.Subscriber.{Subscription, push, close}
use iot_devices_ledger_audit.Broadcast.{Broadcaster, lock, expired, release, publish_loop, keep}
use iot_devices_ledger_audit.Broadcast.Ids.{mem, Distinct, mem-append}
use iot_devices_ledger_audit.Broadcast.Fanout.{expired-set}
use iot_devices_ledger_audit.Broadcast.Sound.{lock-append}
use iot_devices_ledger_audit.Feed.Defs.{Conn, find, erase, close_cell, finish}

abbrev pub subscriptions : List Conn → List ℕ
subscriptions [] = []
subscriptions (c ∷ cs) = c.subscription ∷ subscriptions cs

pub subscriptions-append :
    (cs : List Conn) (c : Conn)
    → subscriptions (cs ++ c ∷ []) ≡ subscriptions cs ++ c.subscription ∷ []
subscriptions-append [] c = refl
subscriptions-append (d ∷ cs) c = ap (λ ws. d.subscription ∷ ws) (subscriptions-append cs c)

pub Distinct-snoc : (ws : List ℕ) (w : ℕ) → Distinct ws → mem w ws ≡ false → Distinct (ws ++ w ∷ [])
unfolding mem
Distinct-snoc [] w d n = (refl, tt)
Distinct-snoc (v ∷ ws) w d n =
    (ground (arith, mem-append v ws w, d.0), Distinct-snoc ws w d.1 (ground arith))

-- Erasing an entry takes out its subscription, and no other.
pub mem-erase :
    (cs : List Conn) (id : Bytes) (c : Conn) (x : ℕ)
    → find cs id ≡ some c
    → mem x (subscriptions cs) ≡ (c.subscription == x) || mem x (subscriptions (erase cs id))
unfolding find erase mem
mem-erase [] id c x h = cc
mem-erase (d ∷ cs) id c x h = elim (Bool-cases (str_eq d.id id)) [
  | inl here ↦ rw here (
      ap (λ (k : Conn). (k.subscription == x) || mem x (subscriptions cs))
        (some_inj (rw here at h)))
  | inr there ↦ rw there (ground (arith, mem-erase cs id c x (rw there at h)))
]

pub Distinct-erase :
    (cs : List Conn) (id : Bytes) (c : Conn)
    → find cs id ≡ some c
    → Distinct (subscriptions cs)
    → Distinct (subscriptions (erase cs id))
      × (mem c.subscription (subscriptions (erase cs id)) ≡ false)
unfolding find erase mem
Distinct-erase [] id c h d = cc
Distinct-erase (e ∷ cs) id c h d = elim (Bool-cases (str_eq e.id id)) [
  | inl here ↦ rw here (
    d.1,
    ap (λ (k : Conn). mem k.subscription (subscriptions cs)) (sym (some_inj (rw here at h))) ∙ d.0,
  )
  | inr there ↦ rw there (
      let (ds, m) = Distinct-erase cs id c (rw there at h) d.1 in
      let x = sym (mem-erase cs id c e.subscription (rw there at h)) ∙ d.0 in
      ((ground (arith, x), ds), ground (arith, x, m)))
]

module _ {ℓ} {A : Type ℓ} where
  expired-release :
      (cells : List (Option (Subscription A))) (w id : ℕ)
      → expired (set cells w none) id ≡ (w == id) || expired cells id
  unfolding expired lock
  expired-release [] w id = ground arith
  expired-release (c ∷ cells) zero zero = refl
  expired-release (c ∷ cells) zero (suc id) = ground arith
  expired-release (c ∷ cells) (suc w) zero = ground arith
  expired-release (c ∷ cells) (suc w) (suc id) = ground (arith, expired-release cells w id)

  pub expired-outside :
      (cells : List (Option (Subscription A))) (w : ℕ) → length cells ≤ w → expired cells w ≡ true
  unfolding expired lock
  expired-outside [] w h = ground arith
  expired-outside (c ∷ cells) zero h = absurd (omega arith)
  expired-outside (c ∷ cells) (suc w) h = ground (arith, expired-outside cells w)

  expired-close_cell :
      (h : Broadcaster A) (w id : ℕ) → expired (close_cell h w).cells id ≡ expired h.cells id
  unfolding close_cell
  expired-close_cell h w id = elim (Option-cases (lock h.cells w)) [
    | inl e ↦ rw (e, close_cell) refl
    | inr (s, e) ↦ rw (e, close_cell) (expired-set h.cells w s (close s) id e)
  ]

  pub expired-finish :
      (h : Broadcaster A) (c : Conn) (id : ℕ)
      → expired (finish h c).cells id ≡ (c.subscription == id) || expired h.cells id
  unfolding finish release
  expired-finish h c id =
      expired-release (close_cell h c.subscription).cells c.subscription id
      ∙ ap (λ b. (c.subscription == id) || b) (expired-close_cell h c.subscription id)

  pub expired-publish_loop :
      (cells : List (Option (Subscription A))) (ws : List ℕ) (b : A) (id : ℕ)
      (cells' : List (Option (Subscription A))) (ws' : List ℕ)
      → publish_loop cells ws b ≡ some (cells', ws')
      → expired cells' id ≡ expired cells id
  unfolding publish_loop keep
  expired-publish_loop cells [] b id cells' ws' h =
      ap (λ k. expired k id) (sym (ap (λ k. k.0) (some_inj h)))
  expired-publish_loop cells (w ∷ ws) b id cells' ws' h = elim (Option-cases (lock cells w)) [
    | inl e ↦ expired-publish_loop cells ws b id cells' ws' (rw (e, publish_loop) at h)
    | inr (s, e) ↦ elim (Option-cases (push s b)) [
      | inl p ↦ absurd (cc (rw (p) at (rw (e, publish_loop) at h)))
      | inr (s', p) ↦ elim (Option-cases (publish_loop (set cells w (some s')) ws b)) [
        | inl q ↦ absurd (ground (arith, h))
        | inr ((cs, vs), q) ↦
            let k = rw q at (rw p at (rw (e, publish_loop) at h)) in
            ap (λ l. expired l id) (sym (ap (λ x. x.0) (some_inj k)))
            ∙ expired-publish_loop (set cells w (some s')) ws b id cs vs q
            ∙ expired-set cells w s s' id e
      ]
    ]
  ]

  pub expired-append :
      (cells : List (Option (Subscription A))) (s : Subscription A) (id : ℕ)
      → expired (cells ++ some s ∷ []) id ≡ (if id == length cells then false else expired cells id)
  unfolding expired
  expired-append cells s id = ground (arith, lock-append cells s id)
