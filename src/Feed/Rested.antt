-- ===== src/Feed/Rested.antt =====
-- What holds while the pump of storage-core/src/ws.cpp waits in `Subscription::next`, and which moves of
-- the others keep it.
use iot_devices_ledger_audit.Prelude.{
  ℕ, zero, suc, ◌+◌, ◌*◌, ◌≤◌, ◌<◌, ◌≡◌, refl, sym, ap, ◌∙◌, ◌⊎◌, inl, inr, Bool, true, false, List,
  [], ◌∷◌, some, length, leb, Bool-cases, some_inj, arith,
}
use iot_devices_ledger_audit.Block.{Block}
use iot_devices_ledger_audit.Broadcast.Subscriber.{Subscription, push, close}
use iot_devices_ledger_audit.Broadcast.Gaps.{push_closed, push_room, push_full}
use iot_devices_ledger_audit.Broadcast.Fanout.{push-total}
use iot_devices_ledger_audit.Feed.Waiting.{
  Place, awake, asleep, holds, returned, threw, Pump, after_push, wake, notify_one, notify_all,
}

module _ {Json : Type 0} where
  -- A sleeping pump has nothing to take, or a notification is owed to it; the one of all, if the
  -- subscription is closed.
  abbrev pub Rested : Place Json → Subscription (Block Json) → ℕ → Bool → Type 0
  Rested asleep s n a =
      ((s.closed ≡ true) × (a ≡ true)) ⊎ ((s.closed ≡ false) × ((s.buffer ≡ []) ⊎ (0 < n)))
  Rested awake s n a = Unit {0}
  Rested (holds i) s n a = Unit {0}
  Rested returned s n a = Unit {0}
  Rested (threw m) s n a = Unit {0}

  pub record Inv (p : Pump Json) : Type 0 where
    pub room : 0 < p.sub.capacity
    pub rested : Rested p.place p.sub p.owed_one p.owed_all

  -- What is left to do for the pump of a closed subscription.
  abbrev pub left : Place Json → ℕ → ℕ
  left awake n = 2 * n + 1
  left asleep n = 2 * n + 2
  left (holds i) n = 2 * n + 2
  left returned n = 0
  left (threw m) n = 0

  abbrev pub effort : Pump Json → ℕ
  effort p = left p.place (length p.sub.buffer)

  -- A move keeps the invariant; on a closed subscription it stays closed, and the effort does not grow.
  pub record Kept (p p' : Pump Json) : Type 0 where
    pub inv : Inv p'
    pub closed : p.sub.closed ≡ true → p'.sub.closed ≡ true
    pub less : p.sub.closed ≡ true → effort p' ≤ effort p

  pub same-Kept : (p : Pump Json) → Inv p → Kept p p
  same-Kept p v = record { inv = v; closed = λ c. c; less = λ c. omega arith }

  pub wake-Kept : (p : Pump Json) (pl : Place Json) → p.place ≡ pl → Inv p → Kept p (wake p pl)
  unfolding wake
  wake-Kept p asleep e v = record {
    inv = record { room = v.room; rested = tt };
    closed = λ c. c;
    less = λ c. rw e (omega arith);
  }
  wake-Kept p awake e v = same-Kept p v
  wake-Kept p (holds i) e v = same-Kept p v
  wake-Kept p returned e v = same-Kept p v
  wake-Kept p (threw m) e v = same-Kept p v

  -- Only what is owed changes.
  owing :
      (p : Pump Json) (n : ℕ) (a : Bool)
      → Rested p.place p.sub n a
      → Inv p
      → Kept p (record p { owed_one = n; owed_all = a })
  owing p n a r v = record {
    inv = record { room = v.room; rested = r };
    closed = λ c. c;
    less = λ c. omega arith;
  }

  -- A notification is sent, and the pump is awake or was not asleep.
  notified :
      (p : Pump Json) (n : ℕ) (a : Bool) (pl : Place Json)
      → p.place ≡ pl
      → Inv p
      → Kept p (wake (record p { owed_one = n; owed_all = a }) pl)
  unfolding wake
  notified p n a asleep e v = record {
    inv = record { room = v.room; rested = tt };
    closed = λ c. c;
    less = λ c. rw e (omega arith);
  }
  notified p n a awake e v = owing p n a (rw e tt) v
  notified p n a (holds i) e v = owing p n a (rw e tt) v
  notified p n a returned e v = owing p n a (rw e tt) v
  notified p n a (threw m) e v = owing p n a (rw e tt) v

  pub notify_one-Kept : (p : Pump Json) (n : ℕ) → Inv p → Kept p (notify_one p n)
  unfolding notify_one
  notify_one-Kept p zero v = same-Kept p v
  notify_one-Kept p (suc n) v = notified p n p.owed_all p.place refl v

  pub notify_all-Kept : (p : Pump Json) (b : Bool) → Inv p → Kept p (notify_all p b)
  unfolding notify_all
  notify_all-Kept p false v = same-Kept p v
  notify_all-Kept p true v = notified p p.owed_one false p.place refl v

  told_one :
      (pl : Place Json) (s : Subscription (Block Json)) (n : ℕ) (a : Bool)
      → s.closed ≡ false
      → Rested pl s (suc n) a
  told_one awake s n a o = tt
  told_one asleep s n a o = inr (o, inr (omega arith))
  told_one (holds i) s n a o = tt
  told_one returned s n a o = tt
  told_one (threw m) s n a o = tt

  push-open :
      (s s' : Subscription (Block Json)) (b : Block Json)
      → push s b ≡ some s'
      → s.closed ≡ false
      → s'.closed ≡ false
  unfolding push
  push-open s s' b p o = elim (Bool-cases (leb s.capacity (length s.buffer))) [
    | inr room ↦
        ap (λ (x : Subscription (Block Json)). x.closed)
          (some_inj (sym p ∙ push_room s b o (ground arith)))
        ∙ o
    | inl full ↦ go s.buffer full refl
  ]
    where
      go :
          (l : List (Block Json))
          → leb s.capacity (length s.buffer) ≡ true
          → s.buffer ≡ l
          → s'.closed ≡ false
      go [] full e = ground (arith, p, o, full, e)
      go (x ∷ l) full e =
          ap (λ (x : Subscription (Block Json)). x.closed)
            (some_inj (sym p ∙ push_full s b x l o (ground arith) e))
          ∙ o

  pub pushes-Kept :
      (p : Pump Json) (b : Block Json)
      → Inv p
      → (p' : Pump Json) × (after_push p (push p.sub b) ≡ some p') × Kept p p'
  unfolding after_push
  pushes-Kept p b v =
      let (s, e, k) = push-total p.sub b v.room in
      elim (Bool-cases p.sub.closed) [
        | inl c ↦ (p, rw (push_closed p.sub b c, after_push, c) refl, same-Kept p v)
        | inr o ↦ (
          record p { sub = s; owed_one = suc p.owed_one },
          rw (e, after_push, o) refl,
          record {
            inv = record {
              room = omega (arith, k, v.room);
              rested = told_one p.place s p.owed_one p.owed_all (push-open p.sub s b e o);
            };
            closed = λ c. absurd (cc (c, o));
            less = λ c. absurd (cc (c, o));
          },
        )
      ]

  pub closes-Kept :
      (p : Pump Json) → Inv p → Kept p (record p { sub = close p.sub; owed_all = true })
  unfolding close
  closes-Kept p v = record {
    inv = record { room = v.room; rested = all_owed p.place };
    closed = λ c. refl;
    less = λ c. omega arith;
  }
    where
      all_owed : (pl : Place Json) → Rested pl (record (p.sub) { closed = true }) p.owed_one true
      all_owed awake = tt
      all_owed asleep = inl (refl, refl)
      all_owed (holds i) = tt
      all_owed returned = tt
      all_owed (threw m) = tt
