-- ===== src/Locks/Progress.antt =====
-- The threads of storage-core never wait for one another's mutexes in a circle.
use native.Mathlib.Decide.{ℕ_discrete}
use iot_devices_ledger_audit.Prelude.{
  ℕ, zero, suc, ◌<◌, ◌≡◌, refl, ap, subst, ◌∙◌, ◌⊎◌, inl, inr, List, [], ◌∷◌, ◌++◌, All, All-map,
  map, Bool-cases, arith,
}
use iot_devices_ledger_audit.Locks.Defs.{
  Mutex, of_queue, of_state, of_handle, of_conns, of_hub, of_subscription, Hold, Op, locks, unlocks,
  Call, Thread, starting, Clash, IsFree, Step, takes, gives, Steps,
}
use iot_devices_ledger_audit.Locks.Order.{rank, IsOrdered, InOrder, starting-InOrder, Steps-InOrder}

Mutex-discrete : Discrete Mutex
Mutex-discrete = hlevel (ℕ_discrete)

-- A search that finds the first thread of a kind.
search_threads :
    (R P Q : Thread → Type 0)
    → ((t : Thread) → R t → P t ⊎ Q t)
    → (ts : List Thread) → All R ts
    → ((before : List Thread) × (t : Thread) × (after : List Thread) × (ts ≡ before ++ t ∷ after)
        × R t
        × P t)
      ⊎ All Q ts
search_threads R P Q test [] a = inr tt
search_threads R P Q test (t ∷ ts) a = elim (test t a.0) [
  | inl p ↦ inl ([], t, ts, refl, a.0, p)
  | inr q ↦ elim (search_threads R P Q test ts a.1) [
    | inl (before, u, after, e, o, p) ↦ inl (t ∷ before, u, after, ap (λ l. t ∷ l) e, o, p)
    | inr qs ↦ inr (q, qs)
  ]
]

abbrev Has : Hold → List Hold → Type 0
Has g [] = ⊥
Has g (h ∷ hs) = (h ≡ g) ⊎ Has g hs

All-Has : (P : Hold → Type 0) (g : Hold) (hs : List Hold) → All P hs → Has g hs → P g
All-Has P g [] a m = absurd m
All-Has P g (h ∷ hs) a (inl e) = subst P e a.0
All-Has P g (h ∷ hs) a (inr m) = All-Has P g hs a.1 m

Clash-cases : (g h : Hold) → Clash g h ⊎ (¬ Clash g h)
Clash-cases g h = elim (Mutex-discrete g.mutex h.mutex) [
  | yes e ↦ elim (Bool-cases g.shared) [
    | inr one ↦ inl (e, inl one)
    | inl both ↦ elim (Bool-cases h.shared) [
      | inr one ↦ inl (e, inr one)
      | inl two ↦ inr (λ c. elim (c.1) [ inl x ↦ cc (x, both) | inr x ↦ cc (x, two) ])
    ]
  ]
  | no other ↦ inr (λ c. other c.0)
]

-- Whether a thread holds something that stands in the way of `h`.
holder_cases :
    (h : Hold) (hs : List Hold) → ((g : Hold) × Has g hs × Clash g h) ⊎ All (λ g. ¬ Clash g h) hs
holder_cases h [] = inr tt
holder_cases h (g ∷ gs) = elim (Clash-cases g h) [
  | inl c ↦ inl (g, inl refl, c)
  | inr free ↦ elim (holder_cases h gs) [
    | inl (k, m, c) ↦ inl (k, inr m, c)
    | inr frees ↦ inr (free, frees)
  ]
]

-- What a thread does next is to lock a mutex of a rank below `k`, or nothing.
abbrev NextBelow : ℕ → List Op → Type 0
NextBelow k [] = Unit {0}
NextBelow k (locks h ∷ rest) = rank h.mutex < k
NextBelow k (unlocks ∷ rest) = ⊥

-- A thread that holds `g` and is not to give back next locks behind `g`.
behind_held :
    (g : Hold) (k : ℕ) (held : List Hold) (rest : List Op)
    → IsOrdered held rest
    → NextBelow k rest
    → Has g held
    → suc (rank g.mutex) < k
behind_held g k held [] o n m = absurd (subst (Has g) o m)
behind_held g k held (locks h ∷ rest) o n m =
    let after : rank g.mutex < rank h.mutex =
      All-Has (λ x. rank x.mutex < rank h.mutex) g held o.0 m in
    omega arith
behind_held g k held (unlocks ∷ rest) o n m = absurd n

-- A thread is about to give back, or its next lock is of rank 0 or 1.
GivesNext : Thread → Type 0
GivesNext t =
    (g : Hold) × (held : List Hold) × (rest : List Op) × (t
      ≡ record { held = g ∷ held; rest = unlocks ∷ rest })

LocksNext : ℕ → Thread → Type 0
LocksNext k t =
    (h : Hold) × (held : List Hold) × (rest : List Op) × (t
      ≡ record { held = held; rest = locks h ∷ rest })
    × (rank h.mutex ≡ k)

rank_bound : (m : Mutex) → rank m < 2
rank_bound of_queue = omega arith
rank_bound of_state = omega arith
rank_bound of_handle = omega arith
rank_bound of_conns = omega arith
rank_bound of_hub = omega arith
rank_bound (of_subscription w) = omega arith

gives_or_locks :
    (held : List Hold) (rest : List Op)
    → IsOrdered held rest
    → GivesNext (record { held = held; rest = rest }) ⊎ NextBelow 2 rest
unfolding GivesNext
gives_or_locks held [] o = inr tt
gives_or_locks held (locks h ∷ rest) o = inr (rank_bound h.mutex)
gives_or_locks [] (unlocks ∷ rest) o = absurd o
gives_or_locks (g ∷ held) (unlocks ∷ rest) o = inl (g, held, rest, refl)

top_or_below :
    (k : ℕ) (held : List Hold) (rest : List Op)
    → NextBelow (suc k) rest
    → LocksNext k (record { held = held; rest = rest }) ⊎ NextBelow k rest
unfolding LocksNext
top_or_below k held [] n = inr tt
top_or_below k held (locks h ∷ rest) n = elim (ℕ_discrete (rank h.mutex) k) [
  | yes e ↦ inl (h, held, rest, refl, e)
  | no other ↦ inr (omega arith)
]
top_or_below k held (unlocks ∷ rest) n = absurd n

abbrev pub IsDone : Thread → Type 0
IsDone t = t.rest ≡ []

none_left : (rest : List Op) → NextBelow 0 rest → rest ≡ []
none_left [] n = refl
none_left (locks h ∷ rest) n = absurd (omega arith)
none_left (unlocks ∷ rest) n = absurd n

abbrev Bounded : ℕ → Thread → Type 0
Bounded k t = InOrder t × NextBelow k t.rest

-- Nobody holds what stands in the way of a mutex of the highest rank that is locked next.
top-IsFree :
    (k : ℕ) (h : Hold) (ts : List Thread)
    → rank h.mutex ≡ k
    → All (Bounded (suc k)) ts
    → IsFree h ts
top-IsFree k h ts r a =
    elim (search_threads (Bounded (suc k)) (λ t. (g : Hold) × Has g t.held × Clash g h)
      (λ t. All (λ g. ¬ Clash g h) t.held) (λ t _. holder_cases h t.held) ts a) [
        | inr free ↦ free
        | inl (before, t, after, e, (o, n), (g, m, c)) ↦
            absurd (omega (arith, behind_held g (suc k) t.held t.rest o n m, ap rank c.0, r))
      ]

progress :
    (k : ℕ) (ts : List Thread)
    → All (Bounded k) ts
    → All IsDone ts ⊎ ((us : List Thread) × Step ts us)
unfolding LocksNext
progress zero ts a = inl (All-map (Bounded 0) IsDone (λ t b. none_left t.rest b.1) ts a)
progress (suc k) ts a =
    let rest_of = progress k ts in
    elim (search_threads (Bounded (suc k)) (LocksNext k) (Bounded k)
      (λ t b. elim (top_or_below k t.held t.rest b.1) [ inl x ↦ inl x | inr y ↦ inr (b.0, y) ]) ts
      a) [
        | inr below ↦ rest_of below
        | inl (before, t, after, e, _, (h, held, rest, is, r)) ↦ inr (
          before ++ record { held = h ∷ held; rest = rest } ∷ after,
          takes before after held h rest (e ∙ ap (λ x. before ++ x ∷ after) is) refl
              (top-IsFree k h ts r a),
        )
      ]

-- No deadlock: whatever methods the threads call, in whatever order, and however their critical
-- sections interleave, as long as a thread is inside one or has one before it, some thread can go
-- on, that is, lock a mutex that nobody holds in its way or give one back.
pub never_stuck :
    (programs : List (List Call)) (ts : List Thread)
    → Steps (map starting programs) ts
    → All IsDone ts ⊎ ((us : List Thread) × Step ts us)
unfolding GivesNext
never_stuck programs ts p =
    let a = Steps-InOrder (map starting programs) ts p (starting-InOrder programs) in
    elim (search_threads InOrder GivesNext (Bounded 2)
      (λ t o. elim (gives_or_locks t.held t.rest o) [ inl x ↦ inl x | inr y ↦ inr (o, y) ]) ts a) [
        | inr bounded ↦ progress 2 ts bounded
        | inl (before, t, after, e, _, (g, held, rest, is)) ↦ inr (
          before ++ record { held = held; rest = rest } ∷ after,
          gives before after held g rest (e ∙ ap (λ x. before ++ x ∷ after) is) refl,
        )
      ]
