-- ===== src/Server/Replies.antt =====
-- What a handler of storage-core/src/server.cpp can get from the future that the writer of
-- storage-core/src/writer.cpp keeps.
use iot_devices_ledger_audit.Prelude.{
  ℕ, ◌≡◌, refl, sym, ap, inl, inr, Option, some, Result, ok, err, Result-cases, Option-cases,
  some_inj, err_inj, arith,
}
use iot_devices_ledger_audit.Json.{Library}
use iot_devices_ledger_audit.Error.{Exception}
use iot_devices_ledger_audit.Block.{Block, EventPayload, block_to_json}
use iot_devices_ledger_audit.Storage.{Stream, append_block}
use iot_devices_ledger_audit.Writer.{
  AppState, Surroundings, build_next, push_reply, persisted, handle_request,
}
use iot_devices_ledger_audit.Server.Statuses.{status_of}

module _ (lib : Library) where
  open lib use {Json, dump}

  -- An iteration of the writer's loop gave this reply.
  pub data FromWriter (reply : Result Exception (Block Json)) : Type 0 where
    from_writer :
        (env : Surroundings) (s s' : AppState Json) (os os' : Stream) (event : EventPayload Json)
        → handle_request lib env s os event ≡ some (reply, s', os')
        → FromWriter reply

  append_block-status :
      (disk : Option ℕ) (os os' : Stream) (b : Block Json) (e : Exception)
      → append_block lib disk os b ≡ (err e, os')
      → status_of e ≡ 500
  unfolding append_block
  append_block-status disk os os' b e h = elim (Result-cases (dump (block_to_json lib b))) [
    | inr (m, d) ↦ ap status_of (sym (err_inj (ap (λ p. p.0) (rw (d, append_block) at h))))
    | inl (text, d) ↦ ground arith
  ]

  persisted-status :
      (s s' : AppState Json) (b : Block Json) (r : Result Exception (Unit {0})) (os os' : Stream)
      (e : Exception)
      → ((x : Exception) → r ≡ err x → status_of x ≡ 500)
      → persisted lib s b (r, os) ≡ some (err e, s', os')
      → status_of e ≡ 500
  unfolding persisted push_reply
  persisted-status s s' b (err x) os os' e k h = ground (arith, k x refl)
  persisted-status s s' b (ok u) os os' e k h = ground arith

  -- The writer's errors are answered with a 500.
  pub FromWriter-status :
      (reply : Result Exception (Block Json)) (e : Exception)
      → FromWriter reply
      → reply ≡ err e
      → status_of e ≡ 500
  unfolding handle_request
  FromWriter-status reply e (from_writer env s s' os os' event h) r =
      elim (Option-cases (build_next lib env.now s event)) [
        | inl n ↦ absurd (cc (rw (n, handle_request) at h))
        | inr (err m, n) ↦ ground (arith, some_inj (rw (n, handle_request) at h))
        | inr (ok b, n) ↦
            let a = append_block lib env.disk os b in
            persisted-status s s' b a.0 a.1 os' e
              (λ x p. append_block-status env.disk os a.1 b x (λ i. (p i, a.1)))
              (rw r at (rw (n, handle_request) at h))
      ]
