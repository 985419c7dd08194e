-- ===== src/Chain/Verdict.antt =====
-- `verify_chain` of storage-core/src/chain.cpp: what its result says.
use iot_devices_ledger_audit.Prelude.{
  ℕ, suc, ◌+◌, ◌<◌, ◌≡◌, refl, sym, ap, ◌∙◌, ◌↔◌, inl, inr, true, false, List, [], ◌∷◌, none, some,
  ok, Result-cases, Bool-cases, ok_inj, length, take, arith,
}
use iot_devices_ledger_audit.Prelude.Bytes.{Bytes, str_eq, str_eq_refl, eq_of_str_eq, ne_of_str_eq}
use iot_devices_ledger_audit.Json.{Library}
use iot_devices_ledger_audit.Block.{Block, compute_hash, zero_hash}
use iot_devices_ledger_audit.Chain.Defs.{VerifyResult, verify_loop, verify_chain}
use iot_devices_ledger_audit.Chain.Links.{Follows, IsLinked}

abbrev pub passed : ℕ → ℕ → VerifyResult
passed n checked = record {
  valid = true;
  chain_length = n;
  checked_blocks = checked;
  first_invalid_index = none;
}

abbrev pub failed : ℕ → ℕ → VerifyResult
failed n i = record {
  valid = false;
  chain_length = n;
  checked_blocks = i + 1;
  first_invalid_index = some i;
}

module _ (lib : Library) where
  open lib use {Json}

  -- The verdict on `bs`, which stand at position `i` of a chain of `n` blocks, after the hash `p`.
  pub data Verdict (i n : ℕ) (p : Bytes) (bs : List (Block Json)) (r : VerifyResult) : Type 0 where
    intact : r ≡ passed n (i + length bs) → IsLinked lib p bs → Verdict i n p bs r
    broken :
        (k : ℕ)
        → k < length bs
        → r ≡ failed n (i + k)
        → IsLinked lib p (take k bs)
        → ¬ IsLinked lib p (take (suc k) bs)
        → Verdict i n p bs r

  Verdict-cons :
      {i n : ℕ} {p : Bytes} {b : Block Json} {bs : List (Block Json)} {r : VerifyResult}
      → Follows lib p b
      → Verdict (i + 1) n b.hash bs r
      → Verdict i n p (b ∷ bs) r
  Verdict-cons {i} {n} {p} {b} {bs} f (intact e l) = intact (e ∙ ap (passed n) (omega arith)) (f, l)
  Verdict-cons {i} {n} {p} {b} {bs} f (broken k h e l m) =
      broken (suc k) (omega arith) (e ∙ ap (failed n) (omega arith)) (f, l) (λ x. m x.1)

  verify_loop-Verdict :
      (i n : ℕ) (p : Bytes) (bs : List (Block Json)) (r : VerifyResult)
      → verify_loop lib i p (passed n i) bs ≡ ok r
      → Verdict i n p bs r
  unfolding verify_loop
  verify_loop-Verdict i n p [] r h = intact (ground arith) tt
  verify_loop-Verdict i n p (b ∷ bs) r h =
      elim (Result-cases (compute_hash lib b.index b.timestamp b.event b.prev_hash)) [
        | inr (m, e) ↦ absurd (ground arith)
        | inl (c, e) ↦ elim (Bool-cases (str_eq b.prev_hash p)) [
          | inr far ↦
              broken 0 (omega arith) (ground arith) tt (λ x. ne_of_str_eq _ _ far x.0.linked)
          | inl near ↦ elim (Bool-cases (str_eq c b.hash)) [
            | inr wrong ↦
                broken 0 (omega arith) (ground arith) tt
                  (λ x. ne_of_str_eq _ _ wrong (ok_inj (sym e ∙ x.0.hashed)))
            | inl right ↦
                Verdict-cons
                  (record {
                    linked = eq_of_str_eq _ _ near;
                    hashed = e ∙ ap ok (eq_of_str_eq c b.hash right);
                  })
                  (verify_loop-Verdict (i + 1) n b.hash bs r (ground arith))
          ]
        ]
      ]

  -- On linked blocks the loop reaches the end.
  verify_loop-IsLinked :
      (i n : ℕ) (p : Bytes) (bs : List (Block Json))
      → IsLinked lib p bs
      → verify_loop lib i p (passed n i) bs ≡ ok (passed n (i + length bs))
  unfolding verify_loop
  verify_loop-IsLinked i n p [] l = ground arith
  verify_loop-IsLinked i n p (b ∷ bs) l =
      rw (l.0.hashed, l.0.linked, str_eq_refl, str_eq_refl)
        (verify_loop-IsLinked (i + 1) n b.hash bs l.1 ∙ ap (λ k. ok (passed n k)) (omega arith))

  -- Whenever the check returns, its result is one of two. Either every block is linked, and the
  -- result is valid with all blocks checked and no invalid index; or the result is invalid and
  -- names the first position `k` up to which the blocks are linked and with which they are not,
  -- with `k + 1` blocks checked.
  pub verify_chain-Verdict :
      (bs : List (Block Json)) (r : VerifyResult)
      → verify_chain lib bs ≡ ok r
      → Verdict 0 (length bs) zero_hash bs r
  unfolding verify_chain
  verify_chain-Verdict bs r h = verify_loop-Verdict 0 (length bs) zero_hash bs r h

  pub IsLinked-of_valid :
      {n i : ℕ} {p : Bytes} {bs : List (Block Json)} {r : VerifyResult}
      → Verdict i n p bs r
      → r.valid ≡ true
      → IsLinked lib p bs
  IsLinked-of_valid (intact e l) v = l
  IsLinked-of_valid (broken k h e l m) v = cc

  -- A chain is reported valid exactly when each block follows the one before it, the first one
  -- after the 64 zeros; and then the report counts every block.
  pub verify_chain_iff :
      (bs : List (Block Json))
      → (verify_chain lib bs ≡ ok (passed (length bs) (length bs))) ↔ IsLinked lib zero_hash bs
  unfolding verify_chain
  verify_chain_iff bs = (
    λ h. IsLinked-of_valid (verify_chain-Verdict bs _ h) refl,
    λ l.
        verify_loop-IsLinked 0 (length bs) zero_hash bs l
        ∙ ap (λ k. ok (passed (length bs) k)) (omega arith),
  )
