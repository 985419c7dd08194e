-- ===== src/System/OnDisk.antt =====
-- The file of storage-core/src/storage.cpp while the writer runs: what is in it stays, also behind a
-- write that failed half-way.
use mathlib.Core.List.{append_assoc, append-nil}
use iot_devices_ledger_audit.Prelude.{
  ℕ, ◌≡◌, refl, sym, ap, subst, ◌∙◌, ◌⊎◌, inl, inr, true, false, List, [], ◌∷◌, ◌++◌, Option, none,
  some, ok, err, Result-cases, Bool-cases, arith, take,
}
use iot_devices_ledger_audit.Prelude.Bytes.{Bytes}
use iot_devices_ledger_audit.Json.{Library}
use iot_devices_ledger_audit.Error.{Exception}
use iot_devices_ledger_audit.Block.{Block, block_to_json}
use iot_devices_ledger_audit.Storage.{Stream, append_block, write}
use iot_devices_ledger_audit.Storage.Reload.{Encodes, append_block-Encodes, append_block-text}

module _ (lib : Library) where
  open lib use {Json, dump}

  -- The file begins with one line for each block; what stands behind is what a failed write left.
  pub record OnDisk (log : Stream) (bs : List (Block Json)) : Type 0 where
    pub good : Bytes
    pub torn : Bytes
    pub split : log.contents ≡ good ++ torn
    pub lines : Encodes lib good bs
    pub whole : log.failed ≡ false → torn ≡ []

  pub OnDisk-Encodes :
      (log : Stream) (bs : List (Block Json))
      → OnDisk log bs
      → log.failed ≡ false
      → Encodes lib log.contents bs
  OnDisk-Encodes log bs d f =
      subst (λ s. Encodes lib s bs)
        (sym (append-nil d.good) ∙ ap (λ t. d.good ++ t) (sym (d.whole f)) ∙ sym d.split) d.lines

  pub Encodes-OnDisk :
      (log : Stream) (bs : List (Block Json)) → Encodes lib log.contents bs → OnDisk log bs
  Encodes-OnDisk log bs e = record {
    good = log.contents;
    torn = [];
    split = sym (append-nil log.contents);
    lines = e;
    whole = λ _. refl;
  }

  pub append_block-OnDisk :
      (disk : Option ℕ) (log log' : Stream) (b : Block Json) (bs : List (Block Json))
      → append_block lib disk log b ≡ (ok tt, log')
      → OnDisk log bs
      → OnDisk log' (bs ++ b ∷ [])
  append_block-OnDisk disk log log' b bs h d =
      let (_, _, _, _, f) = append_block-text lib disk log log' b h in
      Encodes-OnDisk log' (bs ++ b ∷ [])
        ((append_block-Encodes lib disk log log' b bs h (OnDisk-Encodes log bs d f)).0)

  write-grows :
      (disk : Option ℕ) (log : Stream) (text : Bytes)
      → (write disk log text).failed ≡ true
      → (more : Bytes) × ((write disk log text).contents ≡ log.contents ++ more)
  unfolding write
  write-grows none log text h = ([], ground (arith, append-nil log.contents))
  write-grows (some n) log text h = elim (Bool-cases log.failed) [
    | inl f ↦ ([], ground (arith, append-nil log.contents))
    | inr f ↦ (take n text, ground arith)
  ]

  append_block-grows :
      (disk : Option ℕ) (log log' : Stream) (b : Block Json) (e : Exception)
      → append_block lib disk log b ≡ (err e, log')
      → (log' ≡ log)
        ⊎ ((log'.failed ≡ true) × ((more : Bytes) × (log'.contents ≡ log.contents ++ more)))
  unfolding append_block
  append_block-grows disk log log' b e h = elim (Result-cases (dump (block_to_json lib b))) [
    | inr (m, d) ↦ inl (ground arith)
    | inl (text, d) ↦
        let log'_is : write disk log (text ++ 10 ∷ []) ≡ log' =
          ap (λ p. p.1) (rw (d, append_block) at h) in
        let f : (write disk log (text ++ 10 ∷ [])).failed ≡ true = ground arith in
        inr (
          subst (λ o. (o.failed ≡ true) × ((more : Bytes) × (o.contents ≡ log.contents ++ more)))
            log'_is (f, write-grows disk log (text ++ 10 ∷ []) f))
  ]

  -- A failed append takes nothing away.
  pub append_block-OnDisk_error :
      (disk : Option ℕ) (log log' : Stream) (b : Block Json) (e : Exception)
      (bs : List (Block Json))
      → append_block lib disk log b ≡ (err e, log')
      → OnDisk log bs
      → OnDisk log' bs
  append_block-OnDisk_error disk log log' b e bs h d =
      elim (append_block-grows disk log log' b e h) [
        | inl same ↦ subst (λ o. OnDisk o bs) (sym same) d
        | inr (f, (more, c)) ↦ record {
          good = d.good;
          torn = d.torn ++ more;
          split = c ∙ ap (λ s. s ++ more) d.split ∙ append_assoc d.good d.torn more;
          lines = d.lines;
          whole = λ x. absurd (cc (f, x));
        }
      ]
