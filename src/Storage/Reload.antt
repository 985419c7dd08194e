-- ===== src/Storage/Reload.antt =====
-- What `append_block` writes, `load_chain` of storage-core/src/storage.cpp reads back.
use mathlib.Core.List.{append_assoc, append-nil}
use iot_devices_ledger_audit.Prelude.{
  ℕ, ◌+◌, ◌<◌, ◌^◌, ◌≡◌, ◌≢◌, refl, sym, ap, subst, ◌∙◌, ◌⊎◌, inl, inr, true, false, List, [], ◌∷◌,
  ◌++◌, Option, none, some, Result, ok, err, Result-cases, All, arith,
}
use iot_devices_ledger_audit.Prelude.Bytes.{Bytes, bytes}
use iot_devices_ledger_audit.Json.{Library, Laws}
use iot_devices_ledger_audit.Error.{Exception, json_error, storage_error}
use iot_devices_ledger_audit.Block.{Block, block_to_json}
use iot_devices_ledger_audit.Block.Encoding.{parse-dump-block}
use iot_devices_ledger_audit.Chain.{load}
use iot_devices_ledger_audit.Storage.Defs.{
  Stream, lines, append_block, parse_line, load_loop, load_chain, or_fresh,
}

-- A line without a line break, and its end.
pub lines-line :
    (text rest : Bytes) → All (λ c. c ≢ 10) text → lines (text ++ 10 ∷ rest) ≡ text ∷ lines rest
unfolding lines
lines-line [] rest h = refl
lines-line (c ∷ text) rest h = ground (arith, lines-line text rest h.1, h.0)

module _ (lib : Library) where
  open lib use {Json, dump}

  -- `contents` is one line for each block.
  pub data Encodes : Bytes → List (Block Json) → Type 0 where
    nothing : Encodes [] []
    line :
        {rest : Bytes} {bs : List (Block Json)} (b : Block Json) (text : Bytes)
        → dump (block_to_json lib b) ≡ ok text
        → Encodes rest bs
        → Encodes (text ++ 10 ∷ rest) (b ∷ bs)

  pub Encodes-All :
      {contents : Bytes} {bs : List (Block Json)}
      → Encodes contents bs
      → All (λ b. (text : Bytes) × (dump (block_to_json lib b) ≡ ok text)) bs
  Encodes-All nothing = tt
  Encodes-All (line b text d x) = ((text, d), Encodes-All x)

  Encodes-concat :
      {contents : Bytes} {bs : List (Block Json)} (b : Block Json) (text : Bytes)
      → dump (block_to_json lib b) ≡ ok text
      → Encodes contents bs
      → Encodes (contents ++ (text ++ 10 ∷ [])) (bs ++ b ∷ [])
  Encodes-concat b text d nothing = line b text d nothing
  Encodes-concat b text d (line {rest = r} {bs = bs} a t e x) =
      subst (λ c. Encodes c (a ∷ (bs ++ b ∷ []))) (sym (append_assoc t (10 ∷ r) (text ++ 10 ∷ [])))
        (line a t e (Encodes-concat b text d x))

  pub append_block-text :
      (disk : Option ℕ) (os os' : Stream) (b : Block Json)
      → append_block lib disk os b ≡ (ok tt, os')
      → (text : Bytes) × (dump (block_to_json lib b) ≡ ok text)
        × (os'.contents ≡ os.contents ++ (text ++ 10 ∷ []))
        × (os'.failed ≡ false)
        × (os.failed ≡ false)
  unfolding append_block
  append_block-text disk os os' b h = elim (Result-cases (dump (block_to_json lib b))) [
    | inr (m, e) ↦ absurd (ground arith)
    | inl (text, e) ↦ (text, e, ground arith, ground arith, ground arith)
  ]

  -- A failed append leaves the stream as it was, where the block cannot be dumped, or failed.
  pub append_block-error :
      (disk : Option ℕ) (os os' : Stream) (b : Block Json) (e : Exception)
      → append_block lib disk os b ≡ (err e, os')
      → (os' ≡ os) ⊎ (os'.failed ≡ true)
  unfolding append_block
  append_block-error disk os os' b e h = elim (Result-cases (dump (block_to_json lib b))) [
    | inr (m, d) ↦ inl (ground arith)
    | inl (text, d) ↦ inr (ground arith)
  ]

  -- A stream that has failed refuses every further block, and stays failed.
  pub append_block-failed :
      (disk : Option ℕ) (os : Stream) (b : Block Json)
      → os.failed ≡ true
      → (e : Exception) × (append_block lib disk os b ≡ (err e, os))
  unfolding append_block
  append_block-failed disk os b h = elim (Result-cases (dump (block_to_json lib b))) [
    | inr (m, d) ↦ (json_error m, ground arith)
    | inl (text, d) ↦
        (storage_error (bytes "failed to append block to ledger log"), failed_write disk text d)
  ]
    where
      failed_write :
          (o : Option ℕ) (text : Bytes)
          → dump (block_to_json lib b) ≡ ok text
          → append_block lib o os b
            ≡ (err (storage_error (bytes "failed to append block to ledger log")), os)
      failed_write none text d = ground arith
      failed_write (some n) text d = ground arith

  -- A successful append adds one line.
  pub append_block-Encodes :
      (disk : Option ℕ) (os os' : Stream) (b : Block Json) (bs : List (Block Json))
      → append_block lib disk os b ≡ (ok tt, os')
      → Encodes os.contents bs
      → Encodes os'.contents (bs ++ b ∷ []) × (os'.failed ≡ false)
  append_block-Encodes disk os os' b bs h x =
      let (text, d, c, f, g) = append_block-text disk os os' b h in
      (subst (λ k. Encodes k (bs ++ b ∷ [])) (sym c) (Encodes-concat b text d x), f)

  -- Appends of blocks one after the other, up to the first that throws.
  unfoldable pub append_all :
      List (Option ℕ × Block Json) → Stream → Result Exception (Unit {0}) × Stream
  append_all [] os = (ok tt, os)
  append_all ((disk, b) ∷ rest) os =
      let (r, os') = append_block lib disk os b in
      elim r [ err e ↦ (err e, os') | ok u ↦ append_all rest os' ]

  abbrev pub blocks_of : List (Option ℕ × Block Json) → List (Block Json)
  blocks_of [] = []
  blocks_of ((disk, b) ∷ rest) = b ∷ blocks_of rest

  append_all-Encodes :
      (ws : List (Option ℕ × Block Json)) (os os' : Stream) (bs : List (Block Json))
      → append_all ws os ≡ (ok tt, os')
      → Encodes os.contents bs
      → Encodes os'.contents (bs ++ blocks_of ws)
  unfolding append_all
  append_all-Encodes [] os os' bs h x =
      subst (λ (s : Stream). Encodes s.contents (bs ++ [])) (ap (λ p. p.1) h) (rw append-nil x)
  append_all-Encodes ((disk, b) ∷ rest) os os' bs h x =
      let r = append_block lib disk os b in
      elim (Result-cases (r.0)) [
        | inr (e, p) ↦ cc (ap (λ q. q.0) (rw (p, append_all) at h))
        | inl (u, p) ↦ subst (Encodes os'.contents) (append_assoc bs (b ∷ []) (blocks_of rest)) (
            append_all-Encodes rest r.1 os' (bs ++ b ∷ []) (rw (p, append_all) at h)
              (append_block-Encodes disk os r.1 b bs (λ i. (p i, r.1)) x).0)
      ]

module _ (lib : Library) (laws : Laws lib) where
  open lib use {Json, dump, parse}
  open laws use {IsExact}

  pub record IsStorable (b : Block Json) : Type 0 where
    pub index_fits : b.index < 2 ^ 64
    pub exact : IsExact b.event.metadata

  load_loop-Encodes :
      {contents : Bytes} {bs : List (Block Json)} (n : ℕ) (before : List (Block Json))
      → All IsStorable bs
      → Encodes lib contents bs
      → load_loop lib n before (lines contents) ≡ ok (before ++ bs)
  unfolding load_loop parse_line lines
  load_loop-Encodes n before s nothing = ap ok (sym (append-nil before))
  load_loop-Encodes n before s (line {rest = r} {bs = bs} b text d x) =
      rw
        (
          lines-line text r (laws.dump_line _ text d),
          load_loop,
          parse-dump-block lib laws b text (s.0).index_fits (s.0).exact d,
        )
        (load_loop-Encodes (n + 1) (before ++ b ∷ []) s.1 x
          ∙ ap ok (append_assoc before (b ∷ []) bs))

  -- A file that holds one line for each block of a non-empty list loads as the chain of those blocks.
  pub load_chain-Encodes :
      (now : ℕ) (contents : Bytes) (bs : List (Block Json))
      → bs ≢ []
      → All IsStorable bs
      → Encodes lib contents bs
      → load_chain lib now (some contents) ≡ ok (load bs)
  unfolding load_chain or_fresh load
  load_chain-Encodes now contents [] h s x = absurd (h refl)
  load_chain-Encodes now contents (b ∷ bs) h s x = rw (load_loop-Encodes 0 [] s x)

  -- What a run of successful appends adds to a file that held one line for each of some blocks is
  -- loaded behind those: the blocks come back as they were, and in order. There is to be a block at
  -- all, and each needs a 64-bit index and metadata that a dump keeps.
  pub append_all-load_chain :
      (ws : List (Option ℕ × Block Json)) (os os' : Stream) (bs : List (Block Json)) (now : ℕ)
      → Encodes lib os.contents bs
      → append_all lib ws os ≡ (ok tt, os')
      → bs ++ blocks_of lib ws ≢ []
      → All IsStorable (bs ++ blocks_of lib ws)
      → load_chain lib now (some os'.contents) ≡ ok (load (bs ++ blocks_of lib ws))
  append_all-load_chain ws os os' bs now x h n s =
      load_chain-Encodes now os'.contents (bs ++ blocks_of lib ws) n s
        (append_all-Encodes lib ws os os' bs h x)
