-- ===== src/Broadcast/Gaps.antt =====
-- One push into a subscription of storage-core/src/broadcast.cpp, and sequences with counted gaps.
use mathlib.Core.List.{append_assoc}
use iot_devices_ledger_audit.Prelude.{
  ◌+◌, ◌%◌, ◌^◌, ◌≤◌, ◌<◌, ◌≡◌, ℕ, refl, sym, ap, subst, ◌∙◌, true, false, List, [], ◌∷◌, ◌++◌,
  some, length, length-append, All, All-right, arith,
}
use iot_devices_ledger_audit.Broadcast.Subscriber.{Subscription, Item, push}

module _ {ℓ} {A : Type ℓ} where
  -- `published` is, for each delivered item, as many blocks as the item says were lost and then its
  -- block; and then `rest`.
  abbrev pub Gaps : List A → List (Item A) → List A → Type ℓ
  Gaps published [] rest = published ≡ rest
  Gaps published (i ∷ is) rest =
      (missed : List A) × (later : List A) × (published ≡ missed ++ i.block ∷ later)
      × (length missed ≡ i.lagged)
      × Gaps later is rest

  pub Gaps-append :
      (published : List A) (is : List (Item A)) (rest : List A) (b : A)
      → Gaps published is rest
      → Gaps (published ++ b ∷ []) is (rest ++ b ∷ [])
  Gaps-append published [] rest b g = ap (λ l. l ++ b ∷ []) g
  Gaps-append published (i ∷ is) rest b (missed, later, e, n, g) = (
    missed,
    later ++ b ∷ [],
    ap (λ l. l ++ b ∷ []) e ∙ append_assoc missed (i.block ∷ later) (b ∷ []),
    n,
    Gaps-append later is rest b g,
  )

  pub Gaps-deliver :
      (published : List A) (is : List (Item A)) (missed rest : List A) (i : Item A)
      → length missed ≡ i.lagged
      → Gaps published is (missed ++ i.block ∷ rest)
      → Gaps published (is ++ i ∷ []) rest
  Gaps-deliver published [] missed rest i n g = (missed, rest, g, n, refl)
  Gaps-deliver published (j ∷ is) missed rest i n (m, later, e, k, g) =
      (m, later, e, k, Gaps-deliver later is missed rest i n g)

  pub push_closed : (s : Subscription A) (b : A) → s.closed ≡ true → push s b ≡ some s
  unfolding push
  push_closed s b c = ground arith

  pub push_room :
      (s : Subscription A) (b : A)
      → s.closed ≡ false
      → length s.buffer < s.capacity
      → push s b ≡ some (record s { buffer = s.buffer ++ b ∷ [] })
  unfolding push
  push_room s b c h = ground arith

  pub push_full :
      (s : Subscription A) (b oldest : A) (rest : List A)
      → s.closed ≡ false
      → s.capacity ≤ length s.buffer
      → s.buffer ≡ oldest ∷ rest
      → push s b ≡ some (record s { buffer = rest ++ b ∷ []; lagged = (s.lagged + 1) % 2 ^ 64 })
  unfolding push
  push_full s b oldest rest c h e = ground arith

  pub shift :
      (missed buffer rest : List A) (oldest b : A)
      → buffer ≡ oldest ∷ rest
      → (missed ++ buffer) ++ b ∷ [] ≡ (missed ++ oldest ∷ []) ++ (rest ++ b ∷ [])
  shift missed buffer rest oldest b e =
      append_assoc missed buffer (b ∷ [])
      ∙ ap (λ l. missed ++ (l ++ b ∷ [])) e
      ∙ sym (append_assoc missed (oldest ∷ []) (rest ++ b ∷ []))

module _ {ℓ κ} {A : Type ℓ} (P : A → Type κ) where
  -- Every handed block was published, behind at most as many lost ones.
  pub Gaps-All :
      (n : ℕ) (published : List A) (is : List (Item A)) (rest : List A)
      → length published ≤ n
      → All P published
      → Gaps published is rest
      → All (λ i. P i.block × (i.lagged ≤ n)) is
  Gaps-All n published [] rest h a g = tt
  Gaps-All n published (i ∷ is) rest h a (missed, later, e, k, g) =
      let sized : length published ≡ length missed + (1 + length later) =
        omega (arith, ap length e, length-append missed (i.block ∷ later)) in
      let placed = All-right P missed (i.block ∷ later) (subst (All P) e a) in
      ((placed.0, omega arith), Gaps-All n later is rest (omega arith) placed.1 g)
