-- ===== src/Queue/Wakeups.antt =====
-- No wake-up is lost in `WriteQueue` of storage-core/src/writer.cpp.
use iot_devices_ledger_audit.Prelude.{
  ℕ, ◌≤◌, ◌≡◌, refl, subst, ◌⊎◌, inl, inr, false, List, [], ◌∷◌, length, arith, Bool-cases,
}
use iot_devices_ledger_audit.Queue.Defs.{empty, close}
use iot_devices_ledger_audit.Queue.Monitor.{Monitor, Move, unused, step, run}
use iot_devices_ledger_audit.Queue.Sleepers.{
  Inv, wake_push-Inv, wake_pop-Inv, send_empty-Inv, send_full-Inv, send_all_empty-Inv,
  send_all_full-Inv, look_push-Inv, look_pop-Inv,
}

module _ {ℓ} {A : Type ℓ} where
  step-Inv : (m : Monitor A) (x : Move A) → Inv m → Inv (step m x)
  unfolding step close
  step-Inv m Move.calls_push v = record {
    poppers = v.poppers;
    pushers = ground (arith, v.pushers);
    told_pop = v.told_pop;
    told_push = v.told_push;
  }
  step-Inv m Move.calls_pop v = record {
    poppers = ground (arith, v.poppers);
    pushers = v.pushers;
    told_pop = v.told_pop;
    told_push = v.told_push;
  }
  step-Inv m (Move.looks_push request) v = look_push-Inv m request m.awake_push refl v
  step-Inv m Move.looks_pop v = look_pop-Inv m m.awake_pop refl v
  step-Inv m Move.sends_empty v = send_empty-Inv m m.owed_empty refl v
  step-Inv m Move.sends_full v = send_full-Inv m m.owed_full refl v
  step-Inv m Move.sends_all_empty v = send_all_empty-Inv m m.all_empty v
  step-Inv m Move.sends_all_full v = send_all_full-Inv m m.all_full v
  step-Inv m Move.closes v = record {
    poppers = v.poppers;
    pushers = inr (inl refl);
    told_pop = λ _. inr refl;
    told_push = λ _. inr refl;
  }
  step-Inv m Move.stirs_push v = wake_push-Inv m m.asleep_push refl v
  step-Inv m Move.stirs_pop v = wake_pop-Inv m m.asleep_pop refl v

  run-Inv : (m : Monitor A) (xs : List (Move A)) → Inv m → Inv (run m xs)
  unfolding run
  run-Inv m [] v = v
  run-Inv m (x ∷ xs) v = run-Inv (step m x) xs (step-Inv m x v)

  unused-Inv : (capacity : ℕ) → Inv {A = A} (unused capacity)
  unfolding empty
  unused-Inv capacity = record {
    poppers = inl refl;
    pushers = inl refl;
    told_pop = λ _. inl refl;
    told_push = λ _. inl refl;
  }

  -- No thread is about to look at the queue, and no notification is owed.
  abbrev pub IsQuiet : Monitor A → Type 0
  IsQuiet m =
      (m.awake_push ≡ 0)
      × (m.awake_pop ≡ 0)
      × (m.owed_empty ≡ 0)
      × (m.owed_full ≡ 0)
      × (m.all_empty ≡ false)
      × (m.all_full ≡ false)

  no_items : (xs : List A) → length xs ≤ 0 → xs ≡ []
  no_items [] h = refl
  no_items (x ∷ xs) h = absurd (omega arith)

  quiet-pop :
      (m : Monitor A)
      → Inv m
      → IsQuiet m
      → (m.asleep_pop ≡ 0) ⊎ ((m.queue.items ≡ []) × (m.queue.closed ≡ false))
  quiet-pop m v q = elim v.poppers [
    | inl nobody ↦ inl nobody
    | inr few ↦ elim (Bool-cases m.queue.closed) [
      | inr o ↦ inr (no_items m.queue.items (omega (arith, q.1, q.2)), o)
      | inl c ↦ elim (v.told_pop c) [ inl nobody ↦ inl nobody | inr t ↦ absurd (cc (t, q.4)) ]
    ]
  ]

  quiet-push :
      (m : Monitor A)
      → Inv m
      → IsQuiet m
      → (m.asleep_push ≡ 0) ⊎ ((m.queue.capacity ≤ length m.queue.items) × (m.queue.closed ≡ false))
  quiet-push m v q = elim (Bool-cases m.queue.closed) [
    | inl c ↦ elim (v.told_push c) [ inl nobody ↦ inl nobody | inr t ↦ absurd (cc (t, q.5)) ]
    | inr o ↦ elim v.pushers [
      | inl nobody ↦ inl nobody
      | inr (inl c) ↦ absurd (cc (c, o))
      | inr (inr full) ↦ inr (omega (arith, q.0, q.3), o)
    ]
  ]

  -- No wake-up is lost: after any calls of `push`, `pop` and `close` by any number of threads, with
  -- notifications sent as late as it may be and spurious wake-ups, if nobody is awake at the queue
  -- and no notification is owed, then nobody sleeps in `pop` or the queue is open and empty, and
  -- nobody sleeps in `push` or the queue is open and full.
  pub run_wakes :
      (capacity : ℕ) (xs : List (Move A)) (m : Monitor A)
      → run (unused capacity) xs ≡ m
      → IsQuiet m
      → ((m.asleep_pop ≡ 0) ⊎ ((m.queue.items ≡ []) × (m.queue.closed ≡ false)))
        × ((m.asleep_push ≡ 0)
            ⊎ ((m.queue.capacity ≤ length m.queue.items) × (m.queue.closed ≡ false)))
  run_wakes capacity xs m e q =
      let v = subst Inv e (run-Inv (unused capacity) xs (unused-Inv capacity)) in
      (quiet-pop m v q, quiet-push m v q)
