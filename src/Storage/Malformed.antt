-- ===== src/Storage/Malformed.antt =====
-- `load_chain` of storage-core/src/storage.cpp skips no line: a file that loads has a block for each
-- line, and a file that does not names its first malformed line.
use mathlib.Core.List.{append_assoc, append-nil}
use iot_devices_ledger_audit.Prelude.{
  ℕ, ◌+◌, ◌≡◌, refl, sym, ap, subst, ◌∙◌, ◌⊎◌, inl, inr, List, [], ◌∷◌, ◌++◌, some, ok, err,
  Result-cases, err_inj, ok_inj, >>=-eq-err, >>=-eq-ok, map_err-eq-err, map_err-eq-ok, length,
  arith,
}
use iot_devices_ledger_audit.Prelude.Bytes.{Bytes}
use iot_devices_ledger_audit.Json.{Library}
use iot_devices_ledger_audit.Error.{Exception, json_error}
use iot_devices_ledger_audit.Block.{Block}
use iot_devices_ledger_audit.Chain.{Chain, load, fresh}
use iot_devices_ledger_audit.Storage.Defs.{
  lines, parse_line, malformed, load_loop, load_chain, or_fresh, fresh_chain,
}

module _ (lib : Library) where
  open lib use {Json}

  -- Line by line, the texts parse to the blocks.
  abbrev pub Parses : List Bytes → List (Block Json) → Type 0
  Parses [] [] = Unit {0}
  Parses [] (b ∷ bs) = ⊥
  Parses (l ∷ ls) [] = ⊥
  Parses (l ∷ ls) (b ∷ bs) = (parse_line lib l ≡ ok b) × Parses ls bs

  -- The error `e` is about the first line that does not parse, counted from `n + 1`.
  pub record NamesLine (n : ℕ) (ls : List Bytes) (e : Exception) : Type 0 where
    pub good : List Bytes
    pub blocks : List (Block Json)
    pub bad : Bytes
    pub rest : List Bytes
    pub message : Bytes
    pub split : ls ≡ good ++ bad ∷ rest
    pub parsed : Parses good blocks
    pub refused : parse_line lib bad ≡ err message
    pub named : e ≡ malformed lib (n + length good + 1) message

  load_loop-error :
      (n : ℕ) (before : List (Block Json)) (ls : List Bytes) (e : Exception)
      → load_loop lib n before ls ≡ err e
      → NamesLine n ls e
  unfolding load_loop
  load_loop-error n before [] e h = absurd (cc h)
  load_loop-error n before (l ∷ ls) e h = elim (Result-cases (parse_line lib l)) [
    | inr (m, p) ↦ record {
      good = [];
      blocks = [];
      bad = l;
      rest = ls;
      message = m;
      split = refl;
      parsed = tt;
      refused = p;
      named = sym (err_inj (rw (p, load_loop) at h)) ∙ ap (λ k. malformed lib k m) (omega arith);
    }
    | inl (b, p) ↦
        let v = load_loop-error (n + 1) (before ++ b ∷ []) ls e (rw (p, load_loop) at h) in
        record {
          good = l ∷ v.good;
          blocks = b ∷ v.blocks;
          bad = v.bad;
          rest = v.rest;
          message = v.message;
          split = ap (◌∷◌ l) v.split;
          parsed = (p, v.parsed);
          refused = v.refused;
          named = v.named ∙ ap (λ k. malformed lib k v.message) (omega arith);
        }
  ]

  load_loop-Parses :
      (n : ℕ) (before : List (Block Json)) (ls : List Bytes) (bs : List (Block Json))
      → load_loop lib n before ls ≡ ok bs
      → (new : List (Block Json)) × (bs ≡ before ++ new) × Parses ls new
  unfolding load_loop
  load_loop-Parses n before [] bs h = ([], sym (ok_inj h) ∙ sym (append-nil before), tt)
  load_loop-Parses n before (l ∷ ls) bs h = elim (Result-cases (parse_line lib l)) [
    | inr (m, p) ↦ cc (rw (p, load_loop) at h)
    | inl (b, p) ↦
        let (new, e, v) =
          load_loop-Parses (n + 1) (before ++ b ∷ []) ls bs (rw (p, load_loop) at h) in
        (b ∷ new, e ∙ append_assoc before (b ∷ []) new, (p, v))
  ]

  or_fresh-error :
      (now : ℕ) (bs : List (Block Json)) (e : Exception)
      → or_fresh lib now bs ≡ err e
      → (bs ≡ []) × ((m : Bytes) × (fresh lib now ≡ err m) × (e ≡ json_error m))
  unfolding or_fresh fresh_chain
  or_fresh-error now [] e h = (refl, map_err-eq-err json_error (fresh lib now) h)
  or_fresh-error now (b ∷ bs) e h = absurd (cc h)

  or_fresh-ok :
      (now : ℕ) (bs : List (Block Json)) (c : Chain Json)
      → or_fresh lib now bs ≡ ok c
      → ((bs ≡ []) × (fresh lib now ≡ ok c)) ⊎ (c ≡ load bs)
  unfolding or_fresh fresh_chain
  or_fresh-ok now [] c h = inl (refl, map_err-eq-ok json_error (fresh lib now) h)
  or_fresh-ok now (b ∷ bs) c h = inr (sym (ok_inj h))

  no_lines : (ls : List Bytes) (new : List (Block Json)) → new ≡ [] → Parses ls new → ls ≡ []
  no_lines [] new z v = refl
  no_lines (l ∷ ls) [] z v = absurd v
  no_lines (l ∷ ls) (b ∷ new) z v = absurd (cc z)

  -- Whenever loading throws, it is a storage error that names the first malformed line by its
  -- number and carries the parser's message, every line before it parsing; or there was no line, and
  -- making the genesis block failed.
  pub load_chain-error :
      (now : ℕ) (contents : Bytes) (e : Exception)
      → load_chain lib now (some contents) ≡ err e
      → NamesLine 0 (lines contents) e
        ⊎ ((lines contents ≡ []) × ((m : Bytes) × (fresh lib now ≡ err m) × (e ≡ json_error m)))
  unfolding load_chain
  load_chain-error now contents e h =
      elim (>>=-eq-err (load_loop lib 0 [] (lines contents)) (or_fresh lib now) h) [
        | inl p ↦ inl (load_loop-error 0 [] (lines contents) e p)
        | inr (bs, p, q) ↦
            let (new, eq, v) = load_loop-Parses 0 [] (lines contents) bs p in
            let (z, m) = or_fresh-error now bs e q in
            inr (no_lines (lines contents) new (sym eq ∙ z) v, m)
      ]

  -- Whenever loading succeeds, the chain has exactly one block for each line of the file, in order;
  -- only a file without a line gives the fresh chain.
  pub load_chain-Parses :
      (now : ℕ) (contents : Bytes) (c : Chain Json)
      → load_chain lib now (some contents) ≡ ok c
      → Parses (lines contents) c.blocks ⊎ ((lines contents ≡ []) × (fresh lib now ≡ ok c))
  unfolding load_chain load
  load_chain-Parses now contents c h =
      let (bs, p, q) = >>=-eq-ok (load_loop lib 0 [] (lines contents)) (or_fresh lib now) h in
      let (new, eq, v) = load_loop-Parses 0 [] (lines contents) bs p in
      elim (or_fresh-ok now bs c q) [
        | inl (z, f) ↦ inr (no_lines (lines contents) new (sym eq ∙ z) v, f)
        | inr d ↦
            inl (subst (Parses (lines contents)) (sym (ap (λ (k : Chain Json). k.blocks) d ∙ eq)) v)
      ]
