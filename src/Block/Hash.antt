-- ===== src/Block/Hash.antt =====
-- `compute_hash` of storage-core/include/block.hpp: the shape of a hash, and what its input tells.
use iot_devices_ledger_audit.Prelude.{
  Result-cases, Bool-cases, ℕ, ◌+◌, ◌*◌, ◌/◌, ◌%◌, ◌^◌, ◌<◌, ◌≡◌, ◌≢◌, refl, sym, ap, ◌∙◌, ◌⊎◌, inl,
  inr, [], ◌∷◌, ◌++◌, ok, arith, length, All, append_inj_left, append_inj_right, length-append,
}
use iot_devices_ledger_audit.Prelude.Bytes.{Bytes, str_eq, str_eq_refl, eq_of_str_eq}
use iot_devices_ledger_audit.Block.Encoding.{dump-event_inj}
use iot_devices_ledger_audit.Json.{Library, Laws}
use iot_devices_ledger_audit.Block.Defs.{
  EventPayload, event_to_json, index_bytes, hex, hex_digit, hash_input, compute_hash,
}

length-hex : (out : Bytes) → length (hex out) ≡ 2 * length out
unfolding hex
length-hex [] = refl
length-hex (b ∷ out) = omega (arith, length-hex out)

hex_digit_inj : (m n : ℕ) → m < 16 → n < 16 → hex_digit m ≡ hex_digit n → m ≡ n
unfolding hex_digit
hex_digit_inj m n h k e = ground arith

-- Equal hex texts stand for equal digests.
hex_inj : (s t : Bytes) → All (λ b. b < 256) s → All (λ b. b < 256) t → hex s ≡ hex t → s ≡ t
unfolding hex
hex_inj [] [] h k e = refl
hex_inj [] (b ∷ t) h k e = cc
hex_inj (a ∷ s) [] h k e = cc
hex_inj (a ∷ s) (b ∷ t) h k e = ground (
  arith,
  hex_digit_inj (a / 16) (b / 16) (omega arith) (omega arith),
  hex_digit_inj (a % 16) (b % 16) (omega arith) (omega arith),
  hex_inj s t h.1 k.1,
)

length-index_bytes : (i : ℕ) → length (index_bytes i) ≡ 8
unfolding index_bytes
length-index_bytes i = refl

index_bytes_inj : (i j : ℕ) → i < 2 ^ 64 → j < 2 ^ 64 → index_bytes i ≡ index_bytes j → i ≡ j
unfolding index_bytes
index_bytes_inj i j h k e = ground arith

-- Two texts that the digest does not tell apart.
pub record Collision (lib : Library) : Type 0 where
  pub left : Bytes
  pub right : Bytes
  pub differ : left ≢ right
  pub same_digest : lib.sha256 left ≡ lib.sha256 right

-- The parts of a concatenation are known from the lengths of the first and of the last.
same_parts :
    (s s' d d' p p' : Bytes)
    → length s ≡ length s'
    → length p ≡ length p'
    → s ++ (d ++ p) ≡ s' ++ (d' ++ p')
    → (s ≡ s') × (d ≡ d') × (p ≡ p')
same_parts s s' d d' p p' hs hp e =
    let rest = append_inj_right s s' (d ++ p) (d' ++ p') hs e in
    let total : length d + length p ≡ length d' + length p' =
      sym (length-append d p) ∙ ap length rest ∙ length-append d' p' in
    let hd : length d ≡ length d' = omega arith in
    (
      append_inj_left s s' (d ++ p) (d' ++ p') hs e,
      append_inj_left d d' p p' hd rest,
      append_inj_right d d' p p' hd rest,
    )

module _ (lib : Library) (laws : Laws lib) where
  open lib use {Json, dump, sha256}
  open laws use {IsExact}

  compute_hash-input :
      (i : ℕ) (ts : Bytes) (e : EventPayload Json) (ph h : Bytes)
      → compute_hash lib i ts e ph ≡ ok h
      → (text : Bytes) × (dump (event_to_json lib e) ≡ ok text)
        × (h ≡ hex (sha256 (index_bytes i ++ (ts ++ (text ++ ph)))))
  unfolding compute_hash hash_input
  compute_hash-input i ts e ph h c = elim (Result-cases (dump (event_to_json lib e))) [
    | inl (text, d) ↦ (text, d, ground arith)
    | inr (m, d) ↦ absurd (ground arith)
  ]

  pub length-compute_hash :
      (i : ℕ) (ts : Bytes) (e : EventPayload Json) (ph h : Bytes)
      → compute_hash lib i ts e ph ≡ ok h
      → length h ≡ 64
  length-compute_hash i ts e ph h c =
      let (text, d, r) = compute_hash-input i ts e ph h c in
      rw (r, length-hex) (omega (arith, laws.sha256_length (index_bytes i ++ (ts ++ (text ++ ph)))))

  same_fields :
      {i j : ℕ} {ts us : Bytes} {e f : EventPayload Json} {ph qh t u : Bytes}
      → i < 2 ^ 64
      → j < 2 ^ 64
      → length ts ≡ length us
      → length ph ≡ length qh
      → IsExact e.metadata
      → IsExact f.metadata
      → dump (event_to_json lib e) ≡ ok t
      → dump (event_to_json lib f) ≡ ok u
      → index_bytes i ++ (ts ++ (t ++ ph)) ≡ index_bytes j ++ (us ++ (u ++ qh))
      → (i ≡ j) × (ts ≡ us) × (e ≡ f) × (ph ≡ qh)
  same_fields {i} {j} {ts} {us} {e} {f} {ph} {qh} {t} {u} hi hj lt lp x y dt du p =
      let li : length (index_bytes i) ≡ length (index_bytes j) =
        length-index_bytes i ∙ sym (length-index_bytes j) in
      let (pts, pt, pph) = same_parts ts us t u ph qh lt lp (append_inj_right _ _ _ _ li p) in
      (
        index_bytes_inj i j hi hj (append_inj_left _ _ _ _ li p),
        pts,
        dump-event_inj lib laws e f u x y (dt ∙ ap ok pt) du,
        pph,
      )

  -- Contents of one hash are equal, or two different texts with one digest are at hand, if their
  -- indexes fit 64 bits, their timestamps and their previous hashes have the same lengths, and a
  -- dump keeps their metadata.
  pub compute_hash_inj :
      (i j : ℕ) (ts us : Bytes) (e f : EventPayload Json) (ph qh h : Bytes)
      → i < 2 ^ 64
      → j < 2 ^ 64
      → length ts ≡ length us
      → length ph ≡ length qh
      → IsExact e.metadata
      → IsExact f.metadata
      → compute_hash lib i ts e ph ≡ ok h
      → compute_hash lib j us f qh ≡ ok h
      → ((i ≡ j) × (ts ≡ us) × (e ≡ f) × (ph ≡ qh)) ⊎ Collision lib
  compute_hash_inj i j ts us e f ph qh h hi hj lt lp x y c d =
      let (t, dt, rt) = compute_hash-input i ts e ph h c in
      let (u, du, ru) = compute_hash-input j us f qh h d in
      let left = index_bytes i ++ (ts ++ (t ++ ph)) in
      let right = index_bytes j ++ (us ++ (u ++ qh)) in
      let digests : sha256 left ≡ sha256 right =
        hex_inj _ _ (laws.sha256_bytes left) (laws.sha256_bytes right) (sym rt ∙ ru) in
      elim (Bool-cases (str_eq left right)) [
        | inl same ↦ inl (same_fields hi hj lt lp x y dt du (eq_of_str_eq left right same))
        | inr other ↦ inr (record {
          left = left;
          right = right;
          differ = λ p. cc (str_eq_refl left, ap (str_eq left) p);
          same_digest = digests;
        })
      ]
