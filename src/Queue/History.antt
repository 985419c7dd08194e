-- ===== src/Queue/History.antt =====
-- Histories of a `WriteQueue`: any interleaving of the calls of producers, of the consumer and of
-- `close`.
use mathlib.Core.List.{append_assoc, append-nil}
use iot_devices_ledger_audit.Prelude.{
  ℕ, zero, suc, ◌≤◌, ◌≡◌, ◌↔◌, refl, sym, ap, ◌∙◌, Bool, true, false, List, [], ◌∷◌, ◌++◌, Option,
  none, some, length, length-append, arith, is_empty,
}
use iot_devices_ledger_audit.Queue.Defs.{WriteQueue, empty, push, pop, close, is_closed, size}

pub data Call {ℓ} (A : Type ℓ) : Type ℓ where
  pushes : A → Call A
  pops closes : Call A

-- A queue with what it has accepted and what it has handed out, oldest first.
pub record Trace {ℓ} (A : Type ℓ) : Type ℓ where
  pub queue : WriteQueue A
  pub accepted : List A
  pub handed : List A

module _ {ℓ} {A : Type ℓ} where
  is_empty-length : (xs : List A) → (is_empty xs ≡ true) ↔ (length xs ≡ 0)
  is_empty-length [] = (λ _. refl, λ _. refl)
  is_empty-length (x ∷ xs) = (λ h. absurd (cc h), λ h. absurd (omega arith))

  pop-closed : (q : WriteQueue A) → q.items ≡ [] → q.closed ≡ true → pop q ≡ some (none, q)
  unfolding pop
  pop-closed q i c = ground arith

  push-closed : (q : WriteQueue A) (a : A) → q.closed ≡ true → push q a ≡ some (false, q)
  unfolding push
  push-closed q a c = ground arith

  after_push : Trace A → A → Option (Bool × WriteQueue A) → Trace A
  after_push t a none = t
  after_push t a (some (false, q)) = record t { queue = q }
  after_push t a (some (true, q)) = record t { queue = q; accepted = t.accepted ++ a ∷ [] }

  after_pop : Trace A → Option (Option A × WriteQueue A) → Trace A
  after_pop t none = t
  after_pop t (some (none, q)) = record t { queue = q }
  after_pop t (some (some a, q)) = record t { queue = q; handed = t.handed ++ a ∷ [] }

  -- A call that waits changes nothing.
  pub step : Trace A → Call A → Trace A
  unfolding after_push after_pop push pop
  step t (pushes a) = after_push t a (push t.queue a)
  step t pops = after_pop t (pop t.queue)
  step t closes = record t { queue = close t.queue }

  pub run : Trace A → List (Call A) → Trace A
  run t [] = t
  run t (c ∷ cs) = run (step t c) cs

  abbrev pub start : ℕ → Trace A
  start capacity = record { queue = empty capacity; accepted = []; handed = [] }

  pub record Inv (capacity : ℕ) (t : Trace A) : Type ℓ where
    pub fifo : t.accepted ≡ t.handed ++ t.queue.items
    pub bounded : length t.queue.items ≤ capacity
    pub fixed : t.queue.capacity ≡ capacity

  step-pops-Inv :
      (n : ℕ) (t : Trace A) (items : List A) → t.queue.items ≡ items → Inv n t → Inv n (step t pops)
  unfolding step
  step-pops-Inv n t [] e v = ground arith
  step-pops-Inv n t (a ∷ rest) e v = ground (arith, append_assoc t.handed (a ∷ []) rest)

  step-Inv : (n : ℕ) (t : Trace A) (c : Call A) → Inv n t → Inv n (step t c)
  unfolding step close
  step-Inv n t (pushes a) v =
      ground
        (arith, append_assoc t.handed t.queue.items (a ∷ []), length-append t.queue.items (a ∷ []))
  step-Inv n t pops v = step-pops-Inv n t t.queue.items refl v
  step-Inv n t closes v = record { fifo = v.fifo; bounded = v.bounded; fixed = v.fixed }

  run-Inv : (n : ℕ) (t : Trace A) (cs : List (Call A)) → Inv n t → Inv n (run t cs)
  unfolding run
  run-Inv n t [] v = v
  run-Inv n t (c ∷ cs) v = run-Inv n (step t c) cs (step-Inv n t c v)

  -- After any history of calls on a new queue, what was accepted is what was handed out followed
  -- by what is queued, in order; and the queue holds at most its capacity.
  pub run-fifo :
      (capacity : ℕ) (cs : List (Call A))
      → let t = run (start capacity) cs in
        (t.accepted ≡ t.handed ++ t.queue.items) × (size t.queue ≤ capacity)
  unfolding size empty
  run-fifo capacity cs =
      let v =
        run-Inv capacity (start capacity) cs
          (record { fifo = refl; bounded = omega arith; fixed = refl }) in
      (v.fifo, v.bounded)

  -- A producer waits exactly while the queue is open and full, and the consumer exactly while it is
  -- open and empty: after `close` nobody waits.
  pub waits_iff :
      (q : WriteQueue A) (a : A)
      → ((push q a ≡ none) ↔ ((is_closed q ≡ false) × (q.capacity ≤ size q)))
        × ((pop q ≡ none) ↔ ((is_closed q ≡ false) × (size q ≡ 0)))
  unfolding push pop is_closed size
  waits_iff q a = (
    (λ h. ground arith, λ h. ground arith),
    (λ h. ground (arith, is_empty-length q.items), λ h. ground (arith, is_empty-length q.items)),
  )

  -- `n` pops by the consumer.
  pub pop_times : ℕ → Trace A → Trace A
  pop_times zero t = t
  pop_times (suc n) t = pop_times n (step t pops)

  pop-cons :
      (t : Trace A) (a : A) (rest : List A)
      → t.queue.items ≡ a ∷ rest
      → (step t pops).queue.items ≡ rest
        × ((step t pops).queue.closed ≡ t.queue.closed)
        × ((step t pops).handed ≡ t.handed ++ a ∷ [])
  unfolding step
  pop-cons t a rest e = (ground arith, ground arith, ground arith)

  pop_times-drains :
      (items : List A) (t : Trace A)
      → t.queue.items ≡ items
      → t.queue.closed ≡ true
      → let d = pop_times (length items) t in
        (d.handed ≡ t.handed ++ items) × (d.queue.items ≡ []) × (d.queue.closed ≡ true)
  unfolding pop_times
  pop_times-drains [] t e c = (sym (append-nil t.handed), e, c)
  pop_times-drains (a ∷ rest) t e c =
      let (pi, pc, ph) = pop-cons t a rest e in
      let (h, i, k) = pop_times-drains rest (step t pops) pi (pc ∙ c) in
      (h ∙ ap (λ l. l ++ rest) ph ∙ append_assoc t.handed (a ∷ []) rest, i, k)

  -- Closing loses nothing: as many pops as there are items hand out all of them, in order, and the
  -- next pop reports the end; a push is refused and changes nothing.
  pub close_drains :
      (t : Trace A) (a : A)
      → let d = pop_times (size t.queue) (step t closes) in
        (d.handed ≡ t.handed ++ t.queue.items)
        × (pop d.queue ≡ some (none, d.queue))
        × (push d.queue a ≡ some (false, d.queue))
  unfolding size step close
  close_drains t a =
      let (h, i, c) = pop_times-drains t.queue.items (step t closes) refl refl in
      let d = pop_times (size t.queue) (step t closes) in
      (h, pop-closed d.queue i c, push-closed d.queue a c)
