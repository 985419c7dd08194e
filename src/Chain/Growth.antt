-- ===== src/Chain/Growth.antt =====
-- What extends a chain: `make_block` with `append` or `push_persisted`, and the fresh chain.
use iot_devices_ledger_audit.Prelude.{
  ℕ, ◌+◌, ◌%◌, ◌^◌, ◌≡◌, refl, sym, ap, ◌∙◌, inl, inr, List, [], ◌∷◌, ◌++◌, some, ok, >>=-eq-ok,
  ok_inj, length-append, get_last?, arith, Option-cases, get_last?-concat,
}
use iot_devices_ledger_audit.Prelude.Bytes.{Bytes}
use iot_devices_ledger_audit.Json.{Library}
use iot_devices_ledger_audit.Block.{
  EventPayload, Block, compute_hash, make_block, genesis, genesis_event, zero_hash, now_rfc3339,
}
use iot_devices_ledger_audit.Chain.Defs.{
  Chain, latest, size, push_persisted, fresh, append_after, append, verify,
}
use iot_devices_ledger_audit.Chain.Links.{Follows, IsLinked, IsLinked-concat, last_hash}
use iot_devices_ledger_audit.Chain.Verdict.{passed, verify_chain_iff}

last_hash-get_last? :
    {Json : Type 0} (p : Bytes) (bs : List (Block Json)) (b : Block Json)
    → get_last? bs ≡ some b
    → last_hash p bs ≡ b.hash
last_hash-get_last? p [] b h = cc
last_hash-get_last? p (x ∷ []) b h = ground arith
last_hash-get_last? p (x ∷ y ∷ bs) b h = last_hash-get_last? x.hash (y ∷ bs) b h

module _ (lib : Library) where
  open lib use {Json}

  -- A made block has the fields that were asked for, and follows a block of the given hash.
  pub make_block-Follows :
      (now i : ℕ) (e : EventPayload Json) (ph : Bytes) (b : Block Json)
      → make_block lib now i e ph ≡ ok b
      → (b.index ≡ i) × (b.timestamp ≡ now_rfc3339 now) × (b.event ≡ e) × Follows lib ph b
  unfolding make_block
  make_block-Follows now i e ph b h =
      let (x, p, q) = >>=-eq-ok (compute_hash lib i (now_rfc3339 now) e ph) _ h in
      rw (← ok_inj q) (refl, refl, refl, record { linked = refl; hashed = p })

  abbrev pub IsIntact : Chain Json → Type 0
  IsIntact c = IsLinked lib zero_hash c.blocks

  -- A block made on the hash of the tail keeps the chain intact, whatever its index and time.
  pub push_persisted-IsIntact :
      (c : Chain Json) (last b : Block Json) (now i : ℕ) (e : EventPayload Json)
      → latest c ≡ some last
      → make_block lib now i e last.hash ≡ ok b
      → IsIntact c
      → IsIntact (push_persisted c b)
  unfolding push_persisted latest
  push_persisted-IsIntact c last b now i e t m l =
      let (_, _, _, f) = make_block-Follows now i e last.hash b m in
      IsLinked-concat lib zero_hash c.blocks b l
        (rw (last_hash-get_last? zero_hash c.blocks last t) f)

  size-push_persisted : (c : Chain Json) (b : Block Json) → size (push_persisted c b) ≡ size c + 1
  unfolding size push_persisted
  size-push_persisted c b = length-append c.blocks (b ∷ []) ∙ omega arith

  pub latest-push_persisted :
      (c : Chain Json) (b : Block Json) → latest (push_persisted c b) ≡ some b
  unfolding latest push_persisted
  latest-push_persisted c b = get_last?-concat c.blocks b

  pub verify-IsIntact : (c : Chain Json) → IsIntact c → verify lib c ≡ ok (passed (size c) (size c))
  unfolding verify size
  verify-IsIntact c l = (verify_chain_iff lib c.blocks).1 l

  IsIntact-verify : (c : Chain Json) → verify lib c ≡ ok (passed (size c) (size c)) → IsIntact c
  unfolding verify size
  IsIntact-verify c h = (verify_chain_iff lib c.blocks).0 h

  append_inv :
      (now : ℕ) (c d : Chain Json) (e : EventPayload Json)
      → append lib now c e ≡ some (ok d)
      → (last b : Block Json) × (latest c ≡ some last)
        × (make_block lib now ((last.index + 1) % 2 ^ 64) e last.hash ≡ ok b)
        × (d ≡ push_persisted c b)
  unfolding append append_after
  append_inv now c d e h = elim (Option-cases (latest c)) [
    | inl x ↦ absurd (ground arith)
    | inr (last, t) ↦
        let (b, m, q) =
          >>=-eq-ok (make_block lib now ((last.index + 1) % 2 ^ 64) e last.hash)
            (λ b. ok (push_persisted c b)) {out = d} (ground arith) in
        (last, b, t, m, sym (ok_inj q))
  ]

  -- A chain that verifies and takes an event by `append` verifies again, and is one block longer;
  -- the new block carries the event, the next index (modulo 2^64) and the time of the call.
  pub append-verify :
      (now : ℕ) (c d : Chain Json) (e : EventPayload Json)
      → append lib now c e ≡ some (ok d)
      → verify lib c ≡ ok (passed (size c) (size c))
      → (verify lib d ≡ ok (passed (size c + 1) (size c + 1)))
        × ((last b : Block Json) × (latest c ≡ some last)
            × (d.blocks ≡ c.blocks ++ b ∷ [])
            × (b.event ≡ e)
            × (b.index ≡ (last.index + 1) % 2 ^ 64)
            × (b.timestamp ≡ now_rfc3339 now))
  append-verify now c d e h v =
      let (last, b, t, m, q) = append_inv now c d e h in
      let (pi, pt, pe, _) = make_block-Follows now _ e last.hash b m in
      let l = push_persisted-IsIntact c last b now _ e t m (IsIntact-verify c v) in
      rw q (
        (verify-IsIntact (push_persisted c b) l
            ∙ ap (λ k. ok (passed k k)) (size-push_persisted c b)),
        (last, b, t, unfold push_persisted in refl, pe, pi, pt),
      )

  -- The fresh chain is one block, which follows the 64 zeros.
  pub fresh-IsIntact : (now : ℕ) (c : Chain Json) → fresh lib now ≡ ok c → IsIntact c × (size c ≡ 1)
  unfolding fresh genesis size
  fresh-IsIntact now c h =
      let (b, m, q) = >>=-eq-ok (make_block lib now 0 (genesis_event lib) zero_hash) _ h in
      let (_, _, _, f) = make_block-Follows now 0 (genesis_event lib) zero_hash b m in
      rw (← ok_inj q) ((f, tt), refl)
