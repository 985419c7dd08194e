-- ===== src/Queue/Sleepers.antt =====
-- What holds of the sleepers of `WriteQueue`, storage-core/src/writer.cpp, and which parts of a move
-- keep it.
use iot_devices_ledger_audit.Prelude.{
  ℕ, zero, suc, ◌+◌, ◌≤◌, ◌≡◌, refl, sym, subst, ◌⊎◌, inl, inr, Bool, true, false, List, [], ◌∷◌,
  ◌++◌, none, some, length, length-append, arith, Bool-cases, ltb,
}
use iot_devices_ledger_audit.Queue.Defs.{WriteQueue, push, pop}
use iot_devices_ledger_audit.Queue.Monitor.{
  Monitor, looked_push, looked_pop, wake_push, wake_pop, look_push, look_pop, send_empty, send_full,
  send_all_empty, send_all_full,
}

module _ {ℓ} {A : Type ℓ} where
  -- While the queue is open, the awake threads and the notifications that are owed are enough for
  -- what is in the queue, and for the room in it, if anybody sleeps. Once it is closed, sleepers are
  -- owed a notification of all.
  pub record Inv (m : Monitor A) : Type 0 where
    pub poppers : (m.asleep_pop ≡ 0) ⊎ (length m.queue.items ≤ m.owed_empty + m.awake_pop)
    pub pushers :
        (m.asleep_push ≡ 0)
        ⊎ ((m.queue.closed ≡ true)
            ⊎ (m.queue.capacity ≤ length m.queue.items + (m.owed_full + m.awake_push)))
    pub told_pop : m.queue.closed ≡ true → (m.asleep_pop ≡ 0) ⊎ (m.all_empty ≡ true)
    pub told_push : m.queue.closed ≡ true → (m.asleep_push ≡ 0) ⊎ (m.all_full ≡ true)

  pub wake_push-Inv : (m : Monitor A) (n : ℕ) → m.asleep_push ≡ n → Inv m → Inv (wake_push m n)
  unfolding wake_push
  wake_push-Inv m zero e v = v
  wake_push-Inv m (suc n) e v = record {
    poppers = v.poppers;
    pushers = ground (arith, v.pushers);
    told_pop = v.told_pop;
    told_push = λ c. ground (arith, v.told_push c);
  }

  pub wake_pop-Inv : (m : Monitor A) (n : ℕ) → m.asleep_pop ≡ n → Inv m → Inv (wake_pop m n)
  unfolding wake_pop
  wake_pop-Inv m zero e v = v
  wake_pop-Inv m (suc n) e v = record {
    poppers = ground (arith, v.poppers);
    pushers = v.pushers;
    told_pop = λ c. ground (arith, v.told_pop c);
    told_push = v.told_push;
  }

  pub send_empty-Inv : (m : Monitor A) (n : ℕ) → m.owed_empty ≡ n → Inv m → Inv (send_empty m n)
  unfolding send_empty wake_pop
  send_empty-Inv m zero e v = v
  send_empty-Inv m (suc n) e v = go m.asleep_pop refl
    where
      go : (k : ℕ) → m.asleep_pop ≡ k → Inv (wake_pop (record m { owed_empty = n }) k)
      go zero z = record {
        poppers = inl z;
        pushers = v.pushers;
        told_pop = v.told_pop;
        told_push = v.told_push;
      }
      go (suc k) z = record {
        poppers = ground (arith, v.poppers);
        pushers = v.pushers;
        told_pop = λ c. ground (arith, v.told_pop c);
        told_push = v.told_push;
      }

  pub send_full-Inv : (m : Monitor A) (n : ℕ) → m.owed_full ≡ n → Inv m → Inv (send_full m n)
  unfolding send_full wake_push
  send_full-Inv m zero e v = v
  send_full-Inv m (suc n) e v = go m.asleep_push refl
    where
      go : (k : ℕ) → m.asleep_push ≡ k → Inv (wake_push (record m { owed_full = n }) k)
      go zero z = record {
        poppers = v.poppers;
        pushers = inl z;
        told_pop = v.told_pop;
        told_push = v.told_push;
      }
      go (suc k) z = record {
        poppers = v.poppers;
        pushers = ground (arith, v.pushers);
        told_pop = v.told_pop;
        told_push = λ c. ground (arith, v.told_push c);
      }

  pub send_all_empty-Inv : (m : Monitor A) (b : Bool) → Inv m → Inv (send_all_empty m b)
  unfolding send_all_empty
  send_all_empty-Inv m false v = v
  send_all_empty-Inv m true v = record {
    poppers = inl refl;
    pushers = v.pushers;
    told_pop = λ c. inl refl;
    told_push = v.told_push;
  }

  pub send_all_full-Inv : (m : Monitor A) (b : Bool) → Inv m → Inv (send_all_full m b)
  unfolding send_all_full
  send_all_full-Inv m false v = v
  send_all_full-Inv m true v = record {
    poppers = v.poppers;
    pushers = inl refl;
    told_pop = v.told_pop;
    told_push = λ c. inl refl;
  }

  push-closed : (q : WriteQueue A) (x : A) → q.closed ≡ true → push q x ≡ some (false, q)
  unfolding push
  push-closed q x c = ground arith

  push-room :
      (q : WriteQueue A) (x : A)
      → q.closed ≡ false
      → ltb (length q.items) q.capacity ≡ true
      → push q x ≡ some (true, record q { items = q.items ++ x ∷ [] })
  unfolding push
  push-room q x o r = ground arith

  push-full :
      (q : WriteQueue A) (x : A)
      → q.closed ≡ false
      → ltb (length q.items) q.capacity ≡ false
      → push q x ≡ none
  unfolding push
  push-full q x o r = ground arith

  pop-front :
      (q : WriteQueue A) (x : A) (rest : List A)
      → q.items ≡ x ∷ rest
      → pop q ≡ some (some x, record q { items = rest })
  unfolding pop
  pop-front q x rest i = ground arith

  pop-end : (q : WriteQueue A) → q.items ≡ [] → q.closed ≡ true → pop q ≡ some (none, q)
  unfolding pop
  pop-end q i c = ground arith

  pop-waits : (q : WriteQueue A) → q.items ≡ [] → q.closed ≡ false → pop q ≡ none
  unfolding pop
  pop-waits q i o = ground arith

  pub look_push-Inv :
      (m : Monitor A) (request : A) (n : ℕ) → m.awake_push ≡ n → Inv m → Inv (look_push m request n)
  unfolding look_push looked_push
  look_push-Inv m request zero e v = v
  look_push-Inv m request (suc n) e v =
      let q = m.queue in
      elim (Bool-cases q.closed) [
        | inl c ↦
            subst (λ r. Inv (looked_push m n r)) (sym (push-closed q request c))
              (record {
                poppers = v.poppers;
                pushers = inr (inl c);
                told_pop = v.told_pop;
                told_push = v.told_push;
              })
        | inr o ↦ elim (Bool-cases (ltb (length q.items) q.capacity)) [
          | inl room ↦
              subst (λ r. Inv (looked_push m n r)) (sym (push-room q request o room))
                (record {
                  poppers = ground (arith, v.poppers, length-append q.items (request ∷ []));
                  pushers = ground (arith, v.pushers, length-append q.items (request ∷ []));
                  told_pop = v.told_pop;
                  told_push = v.told_push;
                })
          | inr full ↦
              subst (λ r. Inv (looked_push m n r)) (sym (push-full q request o full))
                (record {
                  poppers = v.poppers;
                  pushers = inr (inr (ground arith));
                  told_pop = v.told_pop;
                  told_push = λ c. absurd (cc (c, o));
                })
        ]
      ]

  pub look_pop-Inv : (m : Monitor A) (n : ℕ) → m.awake_pop ≡ n → Inv m → Inv (look_pop m n)
  unfolding look_pop looked_pop
  look_pop-Inv m zero e v = v
  look_pop-Inv m (suc n) e v = go m.queue.items refl
    where
      q : WriteQueue A
      q = m.queue

      go : (l : List A) → q.items ≡ l → Inv (looked_pop m n (pop q))
      go (x ∷ rest) i =
          subst (λ r. Inv (looked_pop m n r)) (sym (pop-front q x rest i))
            (record {
              poppers = ground (arith, v.poppers);
              pushers = ground (arith, v.pushers);
              told_pop = v.told_pop;
              told_push = v.told_push;
            })
      go [] i = elim (Bool-cases q.closed) [
        | inl c ↦
            subst (λ r. Inv (looked_pop m n r)) (sym (pop-end q i c))
              (record {
                poppers = inr (ground arith);
                pushers = v.pushers;
                told_pop = v.told_pop;
                told_push = v.told_push;
              })
        | inr o ↦
            subst (λ r. Inv (looked_pop m n r)) (sym (pop-waits q i o))
              (record {
                poppers = inr (ground arith);
                pushers = v.pushers;
                told_pop = λ c. absurd (cc (c, o));
                told_push = v.told_push;
              })
      ]
