-- ===== src/Feed/CatchUp.antt =====
-- A client of the live feed (storage-core/src/ws.cpp) that asks GET /blocks
-- (storage-core/src/server.cpp) for what a lag notice says it has lost, as storage-core/include/ws.hpp
-- advises: the range ends before the block that follows the notice.
use mathlib.Core.List.{append_assoc}
use iot_devices_ledger_audit.Prelude.{
  ℕ, ◌+◌, ◌-◌, ◌%◌, ◌^◌, ◌≤◌, ◌<◌, min, ◌≡◌, refl, sym, ap, subst, ◌∙◌, false, List, [], ◌∷◌, ◌++◌,
  Result, ok, ◌>>=◌, length, length-append, take-length-append, drop-length-append, ltb, ◌==◌,
  if◌then◌else◌, All, arith,
}
use iot_devices_ledger_audit.Error.{Exception}
use iot_devices_ledger_audit.Block.{Block}
use iot_devices_ledger_audit.Broadcast.{Item}
use iot_devices_ledger_audit.Broadcast.Gaps.{Gaps}
use iot_devices_ledger_audit.Server.{select}

back : (n m : ℕ) → n + m - m ≡ n
back n m = omega arith

last_of_middle :
    (n m k : ℕ)
    → 0 < m
    → n + (m + k) < 2 ^ 64
    → min (n + m - 1) ((n + (m + k) + 2 ^ 64 - 1) % 2 ^ 64) ≡ n + m - 1
last_of_middle n m k p fits = omega arith

starts_before : (n m : ℕ) → 0 < m → ltb (n + m - 1) n ≡ false
starts_before n m p = ground arith

width : (n m : ℕ) → 0 < m → n + m - 1 - n + 1 ≡ m
width n m p = omega arith

module _ {Json : Type 0} where
  -- The lost blocks before a block, from the chain that the server reads.
  unfoldable pub backfill :
      List (Block Json) → Item (Block Json) → Result Exception (List (Block Json))
  backfill chain i =
      if i.lagged == 0
      then ok []
      else (select chain (i.block.index - i.lagged) (i.block.index - 1) >>= λ slice. ok slice.0)

  -- All that the client has after some items.
  unfoldable pub catch_up :
      List (Block Json) → List (Item (Block Json)) → Result Exception (List (Block Json))
  unfolding backfill
  catch_up chain [] = ok []
  catch_up chain (i ∷ is) =
      backfill chain i >>= λ lost. catch_up chain is >>= λ more. ok (lost ++ i.block ∷ more)

  -- Each block has the index of its place, from `n` on.
  abbrev pub Numbered : ℕ → List (Block Json) → Type 0
  Numbered n [] = Unit {0}
  Numbered n (b ∷ bs) = (b.index ≡ n) × Numbered (n + 1) bs

  pub Numbered-append :
      (n : ℕ) (xs ys : List (Block Json))
      → Numbered n xs
      → Numbered (n + length xs) ys
      → Numbered n (xs ++ ys)
  Numbered-append n [] ys a b = subst (λ k. Numbered k ys) (omega arith) b
  Numbered-append n (x ∷ xs) ys a b =
      (a.0, Numbered-append (n + 1) xs ys a.1 (subst (λ k. Numbered k ys) (omega arith) b))

  pub Numbered-left : (n : ℕ) (xs ys : List (Block Json)) → Numbered n (xs ++ ys) → Numbered n xs
  Numbered-left n [] ys a = tt
  Numbered-left n (x ∷ xs) ys a = (a.0, Numbered-left (n + 1) xs ys a.1)

  pub Numbered-right :
      (n : ℕ) (xs ys : List (Block Json)) → Numbered n (xs ++ ys) → Numbered (n + length xs) ys
  Numbered-right n [] ys a = subst (λ k. Numbered k ys) (omega arith) a
  Numbered-right n (x ∷ xs) ys a =
      subst (λ k. Numbered k ys) (omega arith) (Numbered-right (n + 1) xs ys a.1)

  pub Numbered-lt :
      (n m : ℕ) (bs : List (Block Json))
      → n + length bs ≤ m
      → Numbered n bs
      → All (λ b. b.index < m) bs
  Numbered-lt n m [] h a = tt
  Numbered-lt n m (b ∷ bs) h a = (omega (arith, a.0), Numbered-lt (n + 1) m bs (omega arith) a.1)

  pub select_middle :
      (pre mid post : List (Block Json))
      → 0 < length mid
      → length pre + (length mid + length post) < 2 ^ 64
      → select (pre ++ (mid ++ post)) (length pre) (length pre + length mid - 1)
        ≡ ok (mid, length (pre ++ (mid ++ post)))
  unfolding select
  select_middle pre mid post some_lost fits =
      let counted : length (pre ++ (mid ++ post)) ≡ length pre + (length mid + length post) =
        omega (arith, length-append pre (mid ++ post), length-append mid post) in
      rw (counted, last_of_middle (length pre) (length mid) (length post) some_lost fits)
        (rw (
          starts_before (length pre) (length mid) some_lost,
          width (length pre) (length mid) some_lost,
          drop-length-append pre (mid ++ post),
          take-length-append mid post,
        ))

  -- The blocks before `i` in the chain are `pre` and then the lost ones.
  backfill_lost :
      (pre lost post : List (Block Json)) (i : Item (Block Json))
      → i.block.index ≡ length pre + length lost
      → length lost ≡ i.lagged
      → length pre + (length lost + length post) < 2 ^ 64
      → backfill (pre ++ (lost ++ post)) i ≡ ok lost
  unfolding backfill
  backfill_lost pre [] post i at n fits = rw (← n) refl
  backfill_lost pre (x ∷ lost) post i at n fits =
      let e = select_middle pre (x ∷ lost) post (omega arith) fits in
      rw (← n, at, back (length pre) (length (x ∷ lost)), e) (ground arith)

  regroup :
      (pre missed later post : List (Block Json)) (b : Block Json)
      → pre ++ ((missed ++ b ∷ later) ++ post) ≡ (pre ++ (missed ++ b ∷ [])) ++ (later ++ post)
  regroup pre missed later post b = simp append_assoc

  -- Where the chain holds what was published at its place, the client ends with all of it but what
  -- was not handed to it yet.
  pub catch_up-Gaps :
      (items : List (Item (Block Json))) (pre published post tail : List (Block Json))
      → Numbered (length pre) published
      → Gaps published items tail
      → length pre + (length published + length post) < 2 ^ 64
      → (got : List (Block Json)) × (catch_up (pre ++ (published ++ post)) items ≡ ok got)
        × (published ≡ got ++ tail)
  unfolding catch_up
  catch_up-Gaps [] pre published post tail a g fits = ([], refl, g)
  catch_up-Gaps (i ∷ is) pre published post tail a (missed, later, e, n, g) fits =
      let numbered =
        Numbered-right (length pre) missed (i.block ∷ later) (subst (Numbered (length pre)) e a) in
      let placed : length (pre ++ (missed ++ i.block ∷ [])) ≡ length pre + length missed + 1 =
        omega (
          arith,
          length-append pre (missed ++ i.block ∷ []),
          length-append missed (i.block ∷ []),
        ) in
      let sized : length published ≡ length missed + (1 + length later) =
        omega (arith, ap length e, length-append missed (i.block ∷ later)) in
      let (got, c, s) =
        catch_up-Gaps is (pre ++ (missed ++ i.block ∷ [])) later post tail
          (subst (λ k. Numbered k later) (sym placed) numbered.1) g (omega arith) in
      let split : pre ++ (published ++ post) ≡ pre ++ (missed ++ (i.block ∷ (later ++ post))) =
        ap (λ l. pre ++ (l ++ post)) e
        ∙ ap (λ l. pre ++ l) (append_assoc missed (i.block ∷ later) post) in
      let lost =
        backfill_lost pre missed (i.block ∷ (later ++ post)) i numbered.0 n
          (omega (arith, length-append later post)) in
      let chain : pre ++ (published ++ post)
          ≡ (pre ++ (missed ++ i.block ∷ [])) ++ (later ++ post) =
        ap (λ l. pre ++ (l ++ post)) e ∙ regroup pre missed later post i.block in
      let first : backfill (pre ++ (published ++ post)) i ≡ ok missed =
        ap (λ l. backfill l i) split ∙ lost in
      let next : catch_up (pre ++ (published ++ post)) is ≡ ok got =
        ap (λ l. catch_up l is) chain ∙ c in
      (
        missed ++ i.block ∷ got,
        rw (first, next) refl,
        e ∙ ap (λ l. missed ++ i.block ∷ l) s ∙ sym (append_assoc missed (i.block ∷ got) tail),
      )
