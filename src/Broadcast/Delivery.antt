-- ===== src/Broadcast/Delivery.antt =====
-- What a subscriber of storage-core/src/broadcast.cpp receives in any history of its `Subscription`.
use mathlib.Core.List.{append_assoc}
use iot_devices_ledger_audit.Prelude.{
  ℕ, ◌+◌, ◌%◌, ◌^◌, ◌≤◌, ◌<◌, ◌≡◌, refl, ap, subst, ◌⊎◌, inl, inr, true, false, List, [], ◌∷◌, ◌++◌,
  none, some, length, length-append, leb, arith, Bool-cases,
}
use iot_devices_ledger_audit.Broadcast.Subscriber.{
  Subscription, new, take_item, next, try_next, close, buffered, pending_lag,
}
use iot_devices_ledger_audit.Broadcast.Calls.{
  Call, pushes, nexts, tries, closes, Trace, after_take, after_next, step, run, start,
}
use iot_devices_ledger_audit.Broadcast.Gaps.{
  Gaps, Gaps-append, Gaps-deliver, push_closed, push_room, push_full, shift,
}

module _ {ℓ} {A : Type ℓ} where
  pub record Inv (capacity : ℕ) (t : Trace A) : Type ℓ where
    pub missed : List A
    pub counted : length missed ≡ t.sub.lagged
    pub gaps : Gaps t.published t.delivered (missed ++ t.sub.buffer)
    pub bounded : length t.sub.buffer ≤ capacity
    pub fixed : t.sub.capacity ≡ capacity
    pub few : t.sub.lagged ≤ length t.published

  -- One call keeps the invariant, and publishes at most one block.
  abbrev Steps : ℕ → Trace A → Call A → Type ℓ
  Steps n t c =
      (u : Trace A) × (step t c ≡ some u) × Inv n u × (length u.published ≤ length t.published + 1)

  take-Inv :
      (n : ℕ) (t : Trace A) (buffer : List A)
      → t.sub.buffer ≡ buffer
      → Inv n t
      → Inv n (after_take t (take_item t.sub buffer))
  unfolding after_take take_item
  take-Inv n t [] e v = v
  take-Inv n t (b ∷ rest) e v = record {
    missed = [];
    counted = refl;
    gaps =
        Gaps-deliver t.published t.delivered v.missed rest _ v.counted
          (subst (λ l. Gaps t.published t.delivered (v.missed ++ l)) e v.gaps);
    bounded = omega (arith, ap length e);
    fixed = v.fixed;
    few = omega arith;
  }

  module _ (n : ℕ) (t : Trace A) (b : A) where
    step_closed : t.sub.closed ≡ true → step t (pushes b) ≡ some t
    unfolding step
    step_closed c = rw (push_closed t.sub b c) (ground arith)

    step_room :
        t.sub.closed ≡ false → length t.sub.buffer < t.sub.capacity → Inv n t → Steps n t (pushes b)
    unfolding step
    step_room c h v = (
      record t {
        sub = record (t.sub) { buffer = t.sub.buffer ++ b ∷ [] };
        published = t.published ++ b ∷ [];
      },
      rw (push_room t.sub b c h) (ground arith),
      record {
        missed = v.missed;
        counted = v.counted;
        gaps =
            subst (Gaps (t.published ++ b ∷ []) t.delivered)
              (append_assoc v.missed t.sub.buffer (b ∷ []))
              (Gaps-append t.published t.delivered (v.missed ++ t.sub.buffer) b v.gaps);
        bounded = omega (arith, length-append t.sub.buffer (b ∷ []), v.fixed);
        fixed = v.fixed;
        few = omega (arith, length-append t.published (b ∷ []), v.few);
      },
      omega (arith, length-append t.published (b ∷ [])),
    )

    step_full :
        (oldest : A) (rest : List A)
        → t.sub.closed ≡ false
        → t.sub.capacity ≤ length t.sub.buffer
        → t.sub.buffer ≡ oldest ∷ rest
        → length t.published + 1 < 2 ^ 64
        → Inv n t
        → Steps n t (pushes b)
    unfolding step
    step_full oldest rest c h e w v = (
      record t {
        sub = record (t.sub) { buffer = rest ++ b ∷ []; lagged = (t.sub.lagged + 1) % 2 ^ 64 };
        published = t.published ++ b ∷ [];
      },
      rw (push_full t.sub b oldest rest c h e) (ground arith),
      record {
        missed = v.missed ++ oldest ∷ [];
        counted = omega (arith, length-append v.missed (oldest ∷ []), v.counted, v.few);
        gaps =
            subst (Gaps (t.published ++ b ∷ []) t.delivered)
              (shift v.missed t.sub.buffer rest oldest b e)
              (Gaps-append t.published t.delivered (v.missed ++ t.sub.buffer) b v.gaps);
        bounded = omega (arith, length-append rest (b ∷ []), ap length e, v.bounded);
        fixed = v.fixed;
        few = omega (arith, length-append t.published (b ∷ []), v.few);
      },
      omega (arith, length-append t.published (b ∷ [])),
    )

  take-published :
      (t : Trace A) (buffer : List A)
      → (after_take t (take_item t.sub buffer)).published ≡ t.published
  unfolding after_take take_item
  take-published t [] = refl
  take-published t (b ∷ rest) = refl

  next-cases : (s : Subscription A) → (next s ≡ none) ⊎ (next s ≡ some (take_item s s.buffer))
  unfolding next
  next-cases s = ground arith

  same-Steps :
      (n : ℕ) (t u : Trace A) (c : Call A)
      → step t c ≡ some u
      → Inv n u
      → u.published ≡ t.published
      → Steps n t c
  same-Steps n t u c e v p = (u, e, v, omega (arith, ap length p))

  push-Steps :
      (n : ℕ) (t : Trace A) (b : A) (buffer : List A)
      → 0 < n
      → length t.published + 1 < 2 ^ 64
      → t.sub.buffer ≡ buffer
      → Inv n t
      → Steps n t (pushes b)
  push-Steps n t b buffer h w e v = elim (Bool-cases t.sub.closed) [
    | inl c ↦ same-Steps n t t (pushes b) (step_closed n t b c) v refl
    | inr c ↦ elim (Bool-cases (leb t.sub.capacity (length t.sub.buffer))) [
      | inr room ↦ step_room n t b c (ground arith) v
      | inl full ↦ full_case buffer c (ground arith) e
    ]
  ]
    where
      full_case :
          (l : List A)
          → t.sub.closed ≡ false
          → t.sub.capacity ≤ length t.sub.buffer
          → t.sub.buffer ≡ l
          → Steps n t (pushes b)
      full_case [] c f x = absurd (omega (arith, ap length x, v.fixed))
      full_case (o ∷ rest) c f x = step_full n t b o rest c f x w v

  step-Steps :
      (n : ℕ) (t : Trace A) (c : Call A)
      → 0 < n
      → length t.published + 1 < 2 ^ 64
      → Inv n t
      → Steps n t c
  unfolding step try_next close
  step-Steps n t (pushes b) h w v = push-Steps n t b t.sub.buffer h w refl v
  step-Steps n t nexts h w v = elim (next-cases t.sub) [
    | inl e ↦ same-Steps n t t nexts (rw (e, after_next)) v refl
    | inr e ↦
        same-Steps n t (after_take t (take_item t.sub t.sub.buffer)) nexts (rw (e, after_next))
          (take-Inv n t t.sub.buffer refl v) (take-published t t.sub.buffer)
  ]
  step-Steps n t tries h w v =
      same-Steps n t (after_take t (take_item t.sub t.sub.buffer)) tries refl
        (take-Inv n t t.sub.buffer refl v) (take-published t t.sub.buffer)
  step-Steps n t closes h w v =
      same-Steps n t (record t { sub = close t.sub }) closes refl
        (record {
          missed = v.missed;
          counted = v.counted;
          gaps = v.gaps;
          bounded = v.bounded;
          fixed = v.fixed;
          few = v.few;
        })
        refl

  run-Inv :
      (n : ℕ) (t : Trace A) (cs : List (Call A))
      → 0 < n
      → length t.published + length cs < 2 ^ 64
      → Inv n t
      → (u : Trace A) × (run t cs ≡ some u) × Inv n u
  unfolding run
  run-Inv n t [] h w v = (t, refl, v)
  run-Inv n t (c ∷ cs) h w v =
      let (u, e, vu, p) = step-Steps n t c h (omega arith) v in
      let (x, r, vx) = run-Inv n u cs h (omega arith) vu in (x, rw (e, run) r, vx)

  -- A subscription of capacity at least one never drops from an empty buffer, and holds at most its
  -- capacity. After any history of fewer than 2^64 calls, the blocks published to it are, in
  -- order: for each delivered item as many lost blocks as its lag says and then its block; then
  -- `pending_lag` lost blocks; then the buffer.
  pub run_delivers :
      (capacity : ℕ) (cs : List (Call A))
      → 0 < capacity
      → length cs < 2 ^ 64
      → (t : Trace A) × (lost : List A) × (run (start capacity) cs ≡ some t)
        × Gaps t.published t.delivered (lost ++ t.sub.buffer)
        × (length lost ≡ pending_lag t.sub)
        × (buffered t.sub ≤ capacity)
  unfolding pending_lag buffered new
  run_delivers capacity cs h w =
      let (t, e, v) = run-Inv capacity (start capacity) cs h (omega arith) (record {
        missed = [];
        counted = refl;
        gaps = refl;
        bounded = omega arith;
        fixed = refl;
        few = omega arith;
      }) in
      (t, v.missed, e, v.gaps, v.counted, v.bounded)
