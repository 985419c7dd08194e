-- ===== src/Broadcast/Feeds.antt =====
-- The consumer of one subscription of storage-core/src/broadcast.cpp, while the broadcaster serves
-- others.
use iot_devices_ledger_audit.Prelude.{
  ℕ, ◌+◌, ◌^◌, ◌<◌, ◌≡◌, refl, sym, ap, subst, ◌∙◌, inl, inr, true, false, List, [], ◌∷◌, ◌++◌,
  Bool, none, some, length, length-append, set, ◌==◌, arith, Bool-cases, Option-cases, some_inj,
}
use iot_devices_ledger_audit.Broadcast.Subscriber.{Subscription, Item, new}
use iot_devices_ledger_audit.Broadcast.Publish.{
  Broadcaster, lock, subscribe, release, publish, prune,
}
use iot_devices_ledger_audit.Broadcast.Ids.{mem, same}
use iot_devices_ledger_audit.Broadcast.Fanout.{
  pushed_if, lock-set, lock-set-none, length-set, publish_loop-done,
}
use iot_devices_ledger_audit.Broadcast.Sound.{IsSound, publish_fans_out, lock-append}
use iot_devices_ledger_audit.Broadcast.Fed.{Fed, late-Fed, push-Fed}

module _ {ℓ} {A : Type ℓ} where
  -- The consumer of the cell `id`, as long as the cell is held.
  pub record IsFed (told : List A) (items : List (Item A)) (id : ℕ) (h : Broadcaster A)
      : Type ℓ where
    pub stored : id < length h.cells
    pub fed : (s : Subscription A) → lock h.cells id ≡ some s → Fed told items s

  pub release-IsFed :
      (told : List A) (items : List (Item A)) (id : ℕ) (h : Broadcaster A) (w : ℕ)
      → IsFed told items id h
      → IsFed told items id (release h w)
  unfolding release
  release-IsFed told items id h w f = record {
    stored = omega (arith, length-set h.cells w none, f.stored);
    fed = λ s l. f.fed s (ground (arith, l, lock-set-none h.cells w id));
  }

  publish-length :
      (h h' : Broadcaster A) (b : A)
      → IsSound h
      → publish h b ≡ some h'
      → length h'.cells ≡ length h.cells
  unfolding publish
  publish-length h h' b v p =
      let (cells', e, _, _, n) = publish_loop-done h.cells h.subscribers b v.distinct v.ready in
      ap (λ (x : Broadcaster A). length x.cells)
        (some_inj {b = record { cells = cells'; subscribers = prune h.cells h.subscribers }}
          (sym p ∙ rw (e, publish)))
      ∙ n

  -- The listed subscriptions include each open one.
  pub publish-IsFed :
      (told : List A) (items : List (Item A)) (id : ℕ) (h h' : Broadcaster A) (b : A)
      → IsSound h
      → publish h b ≡ some h'
      → length told + 1 < 2 ^ 64
      → ((s : Subscription A)
          → lock h.cells id ≡ some s
          → s.closed ≡ false
          → mem id h.subscribers ≡ true)
      → IsFed told items id h
      → IsFed (told ++ b ∷ []) items id h'
  unfolding pushed_if
  publish-IsFed told items id h h' b v p few listed f = record {
    stored = omega (arith, publish-length h h' b v p, f.stored);
    fed = λ s' l.
        let (x, px, _, cells, _) = publish_fans_out h b v in
        let is : x ≡ h' = some_inj (sym px ∙ p) in
        let cell = sym (ap (λ (y : Broadcaster A). lock y.cells id) is) ∙ cells id in
        elim (Option-cases (lock h.cells id)) [
          | inl gone ↦ absurd (stays_gone (mem id h.subscribers) s' (rw gone at (sym l ∙ cell)))
          | inr (s, there) ↦ elim (Bool-cases (mem id h.subscribers)) [
            | inl m ↦
                push-Fed told items s s' b few (sym (rw (m, there, pushed_if) at cell) ∙ l)
                  (f.fed s there)
            | inr out ↦
                let same_one : s ≡ s' = some_inj (sym (rw (out, there, pushed_if) at cell) ∙ l) in
                subst (Fed (told ++ b ∷ []) items) same_one
                  (late-Fed told items s b (closed_one s there out) (f.fed s there))
          ]
        ];
  }
    where
      stays_gone : (m : Bool) (s' : Subscription A) → some s' ≡ pushed_if m none b → ⊥
      stays_gone true s' e = cc
      stays_gone false s' e = cc

      closed_one :
          (s : Subscription A)
          → lock h.cells id ≡ some s
          → mem id h.subscribers ≡ false
          → s.closed ≡ true
      closed_one s there out = elim (Bool-cases s.closed) [
        | inl c ↦ c
        | inr o ↦ absurd (cc (listed s there o, out))
      ]

  -- A new subscription.
  pub subscribe-IsFed_own :
      (h : Broadcaster A) (capacity : ℕ)
      → IsFed [] [] (subscribe h capacity).0 (subscribe h capacity).1
  unfolding subscribe new
  subscribe-IsFed_own h capacity = record {
    stored = omega (arith, length-append h.cells (some (new capacity) ∷ []));
    fed = λ s l.
        let is : new capacity ≡ s =
          ground (arith, l, lock-append h.cells (new capacity) (length h.cells)) in
        subst (Fed [] []) is (record {
          published = [];
          rest = [];
          missed = [];
          split = refl;
          gaps = refl;
          counted = refl;
          up_to_date = λ _. refl;
        });
  }

  -- Another subscription.
  pub subscribe-IsFed :
      (told : List A) (items : List (Item A)) (id : ℕ) (h : Broadcaster A) (capacity : ℕ)
      → IsFed told items id h
      → IsFed told items id (subscribe h capacity).1
  unfolding subscribe
  subscribe-IsFed told items id h capacity f = record {
    stored = omega (arith, length-append h.cells (some (new capacity) ∷ []), f.stored);
    fed = λ s l. f.fed s (ground (arith, l, f.stored, lock-append h.cells (new capacity) id));
  }

  -- One subscription changes: this one, or another.
  pub set-IsFed :
      (told : List A) (items items' : List (Item A)) (id : ℕ) (h : Broadcaster A) (w : ℕ)
      (sub sub' : Subscription A)
      → lock h.cells w ≡ some sub
      → (w ≡ id → Fed told items sub → Fed told items' sub')
      → ((w == id) ≡ false → items ≡ items')
      → IsFed told items id h
      → IsFed told items' id (record h { cells = set h.cells w (some sub') })
  set-IsFed told items items' id h w sub sub' l own other f = record {
    stored = omega (arith, length-set h.cells w (some sub'), f.stored);
    fed = λ s k.
        let there = lock-set h.cells w sub sub' id l in
        elim (Bool-cases (w == id)) [
          | inl e ↦
              let at_id = same w id e in
              subst (Fed told items') (some_inj (sym (rw e at there) ∙ k))
                (own at_id (f.fed sub (subst (λ j. lock h.cells j ≡ some sub) at_id l)))
          | inr n ↦ subst (λ x. Fed told x s) (other n) (f.fed s (sym (rw n at there) ∙ k))
        ];
  }
