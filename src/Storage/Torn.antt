-- ===== src/Storage/Torn.antt =====
-- A write that fails inside the line of a block, in `append_block` of storage-core/src/storage.cpp,
-- and what `load_chain` makes of the file.
use mathlib.Core.List.{append_assoc, append-nil}
use iot_devices_ledger_audit.Prelude.{
  ℕ, zero, suc, ◌+◌, ◌≤◌, ◌<◌, ◌≡◌, ◌≢◌, refl, sym, ap, ◌∙◌, ◌⊎◌, inl, inr, true, false, List, [],
  ◌∷◌, ◌++◌, some, ok, err, All, length, take, ltb, ok_inj, Bool-cases, Result-cases, arith,
}
use iot_devices_ledger_audit.Prelude.Bytes.{Bytes, bytes}
use iot_devices_ledger_audit.Json.{Library, Laws}
use iot_devices_ledger_audit.Error.{storage_error}
use iot_devices_ledger_audit.Block.{Block, block_to_json}
use iot_devices_ledger_audit.Block.Encoding.{parse-dump-block}
use iot_devices_ledger_audit.Chain.{load}
use iot_devices_ledger_audit.Storage.Defs.{
  Stream, write, append_block, lines, parse_line, malformed, load_loop, load_chain, or_fresh,
}
use iot_devices_ledger_audit.Storage.Reload.{Encodes, nothing, line, IsStorable, lines-line}

lines-last : (s : Bytes) → 0 < length s → All (λ c. c ≢ 10) s → lines s ≡ s ∷ []
unfolding lines
lines-last [] h v = absurd (omega arith)
lines-last (c ∷ []) h v = ground arith
lines-last (c ∷ d ∷ s) h v = ground (arith, lines-last (d ∷ s))

take-front : (n : ℕ) (s : Bytes) → n ≤ length s → take n (s ++ 10 ∷ []) ≡ take n s
take-front zero s h = refl
take-front (suc n) [] h = absurd (omega arith)
take-front (suc n) (c ∷ s) h = ap (λ l. c ∷ l) (take-front n s (omega arith))

All-take : (n : ℕ) (s : Bytes) → All (λ c. c ≢ 10) s → All (λ c. c ≢ 10) (take n s)
All-take zero s v = tt
All-take (suc n) [] v = tt
All-take (suc n) (c ∷ s) v = (v.0, All-take n s v.1)

take_all : (s : Bytes) → take (length s) s ≡ s
take_all [] = refl
take_all (c ∷ s) = ap (λ l. c ∷ l) (take_all s)

take-nonempty : (n : ℕ) (s : Bytes) → 0 < n → n ≤ length s → 0 < length (take n s)
take-nonempty zero s h k = absurd (omega arith)
take-nonempty (suc n) [] h k = absurd (omega arith)
take-nonempty (suc n) (c ∷ s) h k = omega arith

module _ (lib : Library) (laws : Laws lib) where
  open lib use {Json, dump, parse}

  -- The loop over the lines of a good file comes to what stands behind them.
  load_loop-behind :
      {contents : Bytes} {bs : List (Block Json)} (n : ℕ) (before : List (Block Json))
      (more : Bytes)
      → All (IsStorable lib laws) bs
      → Encodes lib contents bs
      → load_loop lib n before (lines (contents ++ more))
        ≡ load_loop lib (n + length bs) (before ++ bs) (lines more)
  unfolding load_loop parse_line lines
  load_loop-behind n before more s nothing =
      ap (λ k. load_loop lib k before (lines more)) {x = n} {y = n + 0} (omega arith)
      ∙ ap (λ l. load_loop lib (n + 0) l (lines more)) (sym (append-nil before))
  load_loop-behind n before more s (line {rest = r} {bs = bs} b text d x) =
      rw
        (
          append_assoc text (10 ∷ r) more,
          lines-line text (r ++ more) (laws.dump_line _ text d),
          load_loop,
          parse-dump-block lib laws b text (s.0).index_fits (s.0).exact d,
        )
        (load_loop-behind (n + 1) (before ++ b ∷ []) more s.1 x
          ∙ ap (λ k. load_loop lib k ((before ++ b ∷ []) ++ bs) (lines more))
              {x = n + 1 + length bs} {y = n + suc (length bs)} (omega arith)
          ∙ ap (λ l. load_loop lib (n + suc (length bs)) l (lines more))
              (append_assoc before (b ∷ []) bs))

  torn-contents :
      (n : ℕ) (os : Stream) (b : Block Json) (text : Bytes)
      → os.failed ≡ false
      → dump (block_to_json lib b) ≡ ok text
      → n ≤ length text
      → append_block lib (some n) os b ≡ (
        err (storage_error (bytes "failed to append block to ledger log")),
        record { contents = os.contents ++ take n text; failed = true },
      )
  unfolding append_block write
  torn-contents n os b text f d k =
      rw (d, append_block, f)
        (ap
          (λ t. (
            err (storage_error (bytes "failed to append block to ledger log")),
            record { contents = os.contents ++ t; failed = true },
          ))
          (take-front n text k))

  one_more :
      (now : ℕ) (bs : List (Block Json)) (c : Block Json)
      → or_fresh lib now (bs ++ c ∷ []) ≡ ok (load (bs ++ c ∷ []))
  unfolding or_fresh
  one_more now [] c = refl
  one_more now (b ∷ bs) c = refl

  -- What loads from a good file with a line behind it that has no line break.
  torn-loads :
      (now : ℕ) (contents : Bytes) (bs : List (Block Json)) (torn : Bytes)
      → All (IsStorable lib laws) bs
      → Encodes lib contents bs
      → 0 < length torn
      → All (λ c. c ≢ 10) torn
      → ((m : Bytes) × (parse_line lib torn ≡ err m)
          × (load_chain lib now (some (contents ++ torn)) ≡ err (malformed lib (length bs + 1) m)))
        ⊎ ((c : Block Json) × (parse_line lib torn ≡ ok c)
            × (load_chain lib now (some (contents ++ torn)) ≡ ok (load (bs ++ c ∷ []))))
  unfolding load_chain load_loop
  torn-loads now contents bs torn s x h v =
      let all =
        load_loop-behind 0 [] torn s x
        ∙ ap (λ l. load_loop lib (0 + length bs) bs l) (lines-last torn h v) in
      elim (Result-cases (parse_line lib torn)) [
        | inr (m, p) ↦ inl (
          m,
          p,
          rw all (
              rw (p, load_loop)
                (ap (λ k. err (malformed lib k m)) {x = 0 + length bs + 1} {y = length bs + 1}
                  (omega arith))),
        )
        | inl (c, p) ↦ inr (c, p, rw all (rw (p, load_loop) (one_more now bs c)))
      ]

  -- All bytes of a line but its line break are read as the block itself.
  whole_line :
      (n : ℕ) (b : Block Json) (text : Bytes)
      → IsStorable lib laws b
      → dump (block_to_json lib b) ≡ ok text
      → n ≤ length text
      → (n < length text) ⊎ (parse_line lib (take n text) ≡ ok b)
  unfolding parse_line
  whole_line n b text v d k = elim (Bool-cases (ltb n (length text))) [
    | inl less ↦ inl (ground arith)
    | inr not_less ↦
        let all : n ≡ length text = ground arith in
        inr (rw (all, take_all text) (parse-dump-block lib laws b text v.index_fits v.exact d))
  ]

  -- On a good log, when the disk takes some of the bytes of a block's line and not the line break: the
  -- append throws, and it depends on these bytes what the next start finds. If they do not parse as
  -- a block, it throws and names the line behind the good ones, and no block loads; then some byte in
  -- front of the line break is missing. If they do, the block that they parse to is loaded behind the
  -- good ones, and it is the one that was refused if only the line break is missing. All the blocks
  -- have a 64-bit index and metadata that a dump keeps.
  pub torn_append-load_chain :
      (now n : ℕ) (os : Stream) (bs : List (Block Json)) (b : Block Json) (text : Bytes)
      → All (IsStorable lib laws) bs
      → IsStorable lib laws b
      → Encodes lib os.contents bs
      → os.failed ≡ false
      → dump (block_to_json lib b) ≡ ok text
      → 0 < n
      → n ≤ length text
      → let (r, os') = append_block lib (some n) os b in
        (r ≡ err (storage_error (bytes "failed to append block to ledger log")))
        × (((n < length text)
              × ((m : Bytes) × (parse_line lib (take n text) ≡ err m)
                  × (load_chain lib now (some os'.contents)
                      ≡ err (malformed lib (length bs + 1) m))))
            ⊎ ((c : Block Json) × (parse_line lib (take n text) ≡ ok c)
                × ((n < length text) ⊎ (c ≡ b))
                × (load_chain lib now (some os'.contents) ≡ ok (load (bs ++ c ∷ [])))))
  torn_append-load_chain now n os bs b text s v x f d h k =
      let is = torn-contents n os b text f d k in
      let no_break = All-take n text (laws.dump_line _ text d) in
      let whole = whole_line n b text v d k in
      rw is (
        refl,
        elim (torn-loads now os.contents bs (take n text) s x (take-nonempty n text h k) no_break) [
          | inl (m, p, q) ↦ elim whole [
            | inl less ↦ inl (less, (m, p, q))
            | inr read ↦ absurd (cc (p, read))
          ]
          | inr (c, p, q) ↦ elim whole [
            | inl less ↦ inr (c, p, inl less, q)
            | inr read ↦ inr (c, p, inr (ok_inj (sym p ∙ read)), q)
          ]
        ],
      )
