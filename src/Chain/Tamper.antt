-- ===== src/Chain/Tamper.antt =====
-- Why `verify_chain` of storage-core/src/chain.cpp notices a changed ledger: the last hash fixes
-- the blocks before it, unless the digest collides.
use iot_devices_ledger_audit.Prelude.{
  ◌^◌, ◌<◌, ◌≡◌, refl, sym, ap, ◌∙◌, ◌⊎◌, inl, inr, true, List, [], ◌∷◌, ok, length, All, arith,
}
use iot_devices_ledger_audit.Prelude.Bytes.{Bytes}
use iot_devices_ledger_audit.Json.{Library, Laws}
use iot_devices_ledger_audit.Block.{Block, zero_hash}
use iot_devices_ledger_audit.Block.Hash.{Collision, compute_hash_inj, length-compute_hash}
use iot_devices_ledger_audit.Chain.Defs.{VerifyResult, verify_chain}
use iot_devices_ledger_audit.Chain.Links.{Follows, IsLinked, last_hash}
use iot_devices_ledger_audit.Chain.Verdict.{verify_chain-Verdict, IsLinked-of_valid}

module _ (lib : Library) (laws : Laws lib) where
  open lib use {Json}
  open laws use {IsExact}

  -- A block as it is made or loaded: a 64-bit index, a timestamp of 20 bytes, parsed metadata.
  pub record IsProper (b : Block Json) : Type 0 where
    pub index_fits : b.index < 2 ^ 64
    pub stamp_length : length b.timestamp ≡ 20
    pub exact : IsExact b.event.metadata

  block_eq :
      {b c : Block Json}
      → (b.index ≡ c.index)
        × (b.timestamp ≡ c.timestamp)
        × (b.event ≡ c.event)
        × (b.prev_hash ≡ c.prev_hash)
      → b.hash ≡ c.hash
      → b ≡ c
  block_eq (i, t, e, p) h =
      λ k. record { index = i k; timestamp = t k; event = e k; prev_hash = p k; hash = h k }

  Follows-inj :
      {p q : Bytes} {b c : Block Json}
      → length p ≡ length q
      → IsProper b
      → IsProper c
      → Follows lib p b
      → Follows lib q c
      → b.hash ≡ c.hash
      → ((b ≡ c) × (p ≡ q)) ⊎ Collision lib
  Follows-inj {p} {q} {b} {c} n x y f g h =
      elim (compute_hash_inj lib laws b.index c.index b.timestamp c.timestamp b.event c.event
        b.prev_hash c.prev_hash c.hash x.index_fits y.index_fits
        (x.stamp_length ∙ sym y.stamp_length) (ap length f.linked ∙ n ∙ ap length (sym g.linked))
        x.exact y.exact (f.hashed ∙ ap ok h) g.hashed) [
          | inl (i, t, e, r) ↦ inl (block_eq (i, t, e, r) h, sym f.linked ∙ r ∙ g.linked)
          | inr k ↦ inr k
        ]

  linked_inj :
      (p q : Bytes) (bs cs : List (Block Json))
      → length p ≡ 64
      → length q ≡ 64
      → length bs ≡ length cs
      → All IsProper bs
      → All IsProper cs
      → IsLinked lib p bs
      → IsLinked lib q cs
      → last_hash p bs ≡ last_hash q cs
      → ((bs ≡ cs) × (p ≡ q)) ⊎ Collision lib
  linked_inj p q [] [] lp lq n x y f g h = inl (refl, h)
  linked_inj p q [] (c ∷ cs) lp lq n x y f g h = absurd (omega arith)
  linked_inj p q (b ∷ bs) [] lp lq n x y f g h = absurd (omega arith)
  linked_inj p q (b ∷ bs) (c ∷ cs) lp lq n x y f g h =
      elim (linked_inj b.hash c.hash bs cs (length-compute_hash lib laws _ _ _ _ _ f.0.hashed)
        (length-compute_hash lib laws _ _ _ _ _ g.0.hashed) (omega arith) x.1 y.1 f.1 g.1 h) [
          | inr k ↦ inr k
          | inl (e, hb) ↦ elim (Follows-inj (lp ∙ sym lq) x.0 y.0 f.0 g.0 hb) [
            | inr k ↦ inr k
            | inl (d, r) ↦ inl ((λ i. d i ∷ e i), r)
          ]
        ]

  -- Two proper ledgers of one length that both verify and end in the same hash are equal, block
  -- for block, or two different texts with one digest are at hand.
  pub verify_chain_inj :
      (bs cs : List (Block Json)) (r s : VerifyResult)
      → All IsProper bs
      → All IsProper cs
      → length bs ≡ length cs
      → verify_chain lib bs ≡ ok r
      → verify_chain lib cs ≡ ok s
      → r.valid ≡ true
      → s.valid ≡ true
      → last_hash zero_hash bs ≡ last_hash zero_hash cs
      → (bs ≡ cs) ⊎ Collision lib
  verify_chain_inj bs cs r s x y n hr hs vr vs h =
      elim (linked_inj zero_hash zero_hash bs cs refl refl n x y
        (IsLinked-of_valid lib (verify_chain-Verdict lib bs r hr) vr)
        (IsLinked-of_valid lib (verify_chain-Verdict lib cs s hs) vs) h) [
          | inl (e, _) ↦ inl e
          | inr k ↦ inr k
        ]
