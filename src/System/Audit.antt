-- ===== src/System/Audit.antt =====
-- What GET /verify of storage-core/src/server.cpp answers with while the threads run.
use iot_devices_ledger_audit.Prelude.{
  ℕ, suc, ◌+◌, ◌^◌, ◌<◌, ◌≤◌, ◌≡◌, none, refl, ap, ◌∙◌, ◌⊎◌, true, false, [], ◌∷◌, ◌++◌, ok, length,
  length-append, arith,
}
use iot_devices_ledger_audit.Prelude.Bytes.{Bytes, bytes, is_ascii}
use iot_devices_ledger_audit.Json.{Library, FeedLaws}
use iot_devices_ledger_audit.Block.{now_rfc3339}
use iot_devices_ledger_audit.Block.Clock.{now_rfc3339-ascii}
use iot_devices_ledger_audit.Chain.{size}
use iot_devices_ledger_audit.Writer.Request
use iot_devices_ledger_audit.Server.{json_response, first_invalid, verify_body, get_verify}
use iot_devices_ledger_audit.System.Defs.{System, Phase, Steps, Begins}
use iot_devices_ledger_audit.System.Invariant.{untold, unanswered, made}
use iot_devices_ledger_audit.System.Safety.{written_ahead}

module _ {Json : Type 0} where
  -- The block of the request in hand, if it is in the chain: one at most.
  in_flight : (p : Phase Json) → length (unanswered p ++ untold p) ≤ 1
  in_flight Phase.ended = omega arith
  in_flight Phase.idle = omega arith
  in_flight (Phase.failed r e) = omega arith
  in_flight (Phase.published r b) = omega arith
  in_flight (Phase.pushed r b) = omega arith
  in_flight (Phase.persisted r b) = omega arith
  in_flight (Phase.built r b) = omega arith
  in_flight (Phase.popped r) = omega arith

module _ (lib : Library) where
  open lib use {Json, null, of_bool, of_uint, of_str, of_fields, dump}

  -- What GET /verify says of a valid chain of `n` blocks.
  abbrev verdict : ℕ → ℕ → Json
  verdict n now = of_fields (
      (bytes "valid", of_bool true)
      ∷ (bytes "chain_length", of_uint n)
      ∷ (bytes "checked_blocks", of_uint n)
      ∷ (bytes "first_invalid_index", null)
      ∷ (bytes "verified_at", of_str (now_rfc3339 now))
      ∷ [])

  -- From a state that `run` has made, with a sound chain and a good log, whatever the threads do and
  -- at whatever time, while the chain has fewer than 2^64 blocks: the handler of GET /verify answers,
  -- with no status of its own, that the chain is valid, that all its blocks were checked and none is
  -- invalid. Their number is that of the blocks at the start and of the requests answered with a
  -- block, or is one more.
  pub audit_passes :
      (s : System Json)
      → Begins lib s
      → Request.Inv lib s.app s.log
      → s.log.failed ≡ false
      → (t : System Json) → Steps lib s t
      → FeedLaws lib
      → (now : ℕ) → size t.app.chain < 2 ^ 64
      → ((body : Bytes) × (get_verify lib t.app now ≡ ok (json_response none body))
          × (dump (verdict (size t.app.chain) now) ≡ ok body))
        × ((size t.app.chain ≡ length s.app.chain.blocks + length (made t.replies))
            ⊎ (size t.app.chain ≡ suc (length s.app.chain.blocks + length (made t.replies))))
  unfolding get_verify size verify_body first_invalid
  audit_passes s b v f t p more now fits =
      let (valid, grown, _, _) = written_ahead lib s t b v f p in
      let n = size t.app.chain in
      let (body, d) = more.dump_plain (verdict n now) (
        more.plain_fields _ (
          (unfold bytes is_ascii in refl, more.plain_bool true),
          (
            (unfold bytes is_ascii in refl, more.plain_uint n fits),
            (
              (unfold bytes is_ascii in refl, more.plain_uint n fits),
              (
                (unfold bytes is_ascii in refl, more.plain_null),
                (
                  (
                    unfold bytes is_ascii in refl,
                    more.plain_str (now_rfc3339 now) (now_rfc3339-ascii now),
                  ),
                  tt,
                ),
              ),
            ),
          ),
        )) in
      (
        (body, rw valid (rw d refl), d),
        omega (
          arith,
          in_flight t.phase,
          ap length grown
              ∙ length-append s.app.chain.blocks
                  (made t.replies ++ (unanswered t.phase ++ untold t.phase))
              ∙ ap (λ k. length s.app.chain.blocks + k)
                  (length-append (made t.replies) (unanswered t.phase ++ untold t.phase)),
        ),
      )
