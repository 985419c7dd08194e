-- ===== src/Writer/Loop.antt =====
-- The loop of `writer_loop`, storage-core/src/writer.cpp, over any requests.
use mathlib.Core.List.{append_assoc, append-nil}
use iot_devices_ledger_audit.Prelude.{
  ℕ, ◌≡◌, refl, sym, ap, subst, ◌∙◌, inl, inr, true, false, List, [], ◌∷◌, ◌++◌, some, Result, ok,
  err, All, Result-cases, get_last?, some_inj,
}
use iot_devices_ledger_audit.Json.{Library, Laws}
use iot_devices_ledger_audit.Error.{Exception, json_error}
use iot_devices_ledger_audit.Block.{Block, EventPayload, make_block}
use iot_devices_ledger_audit.Chain.{latest, size, load, verify}
use iot_devices_ledger_audit.Chain.Verdict.{passed}
use iot_devices_ledger_audit.Chain.Growth.{verify-IsIntact}
use iot_devices_ledger_audit.Storage.{Stream, load_chain}
use iot_devices_ledger_audit.Storage.Reload.{IsStorable, load_chain-Encodes, append_block-failed}
use iot_devices_ledger_audit.Writer.Defs.{
  AppState, Writer, WriteRequest, Surroundings, persisted, handle_request, writer_loop,
}
use iot_devices_ledger_audit.Writer.Request.{
  Inv, Handled, done, refused, handle_request_lem, build_next-total,
}

module _ {Json : Type 0} where
  -- The blocks among the replies, oldest first.
  abbrev pub blocks_in : List (ℕ × Result Exception (Block Json)) → List (Block Json)
  blocks_in [] = []
  blocks_in ((p, ok b) ∷ rs) = b ∷ blocks_in rs
  blocks_in ((p, err e) ∷ rs) = blocks_in rs

  abbrev pub promises : List (ℕ × Result Exception (Block Json)) → List ℕ
  promises [] = []
  promises ((p, r) ∷ rs) = p ∷ promises rs

  abbrev pub requested : List (Surroundings × WriteRequest Json) → List ℕ
  requested [] = []
  requested ((env, r) ∷ rs) = r.respond_to ∷ requested rs

module _ (lib : Library) where
  open lib use {Json}

  -- From `w` the loop got to `w'`, answering `rs`.
  pub record Served (w w' : Writer Json) (rs : List (Surroundings × WriteRequest Json))
      : Type 0 where
    pub new : List (ℕ × Result Exception (Block Json))
    pub replies : w'.replies ≡ w.replies ++ new
    pub answered : promises new ≡ requested rs
    pub grown : w'.state.chain.blocks ≡ w.state.chain.blocks ++ blocks_in new
    pub kept : Inv lib w'.state w'.log

  Handled-blocks :
      {env : Surroundings} {event : EventPayload Json} {s s' : AppState Json} {os os' : Stream}
      {reply : Result Exception (Block Json)} (p : ℕ)
      → Handled lib env event s os reply s' os'
      → s'.chain.blocks ≡ s.chain.blocks ++ blocks_in ((p, reply) ∷ [])
  Handled-blocks {s = s} {s' = s'} p (done b e a) = rw e a.blocks
  Handled-blocks {s = s} p (refused e q r x) = rw (r, q) (sym (append-nil s.chain.blocks))

  blocks_in-cons :
      (p : ℕ) (r : Result Exception (Block Json)) (rs : List (ℕ × Result Exception (Block Json)))
      → blocks_in ((p, r) ∷ rs) ≡ blocks_in ((p, r) ∷ []) ++ blocks_in rs
  blocks_in-cons p (ok b) rs = refl
  blocks_in-cons p (err e) rs = refl

  -- From a sound state the writer answers every request that it pops exactly once, in order; the
  -- chain grows by the blocks of the successful answers, in order; and the state stays sound.
  pub writer_loop-Served :
      (w : Writer Json) (rs : List (Surroundings × WriteRequest Json))
      → Inv lib w.state w.log
      → (w' : Writer Json) × (writer_loop lib w rs ≡ some w') × Served w w' rs
  unfolding writer_loop
  writer_loop-Served w [] v = (
    w,
    refl,
    record {
      new = [];
      replies = sym (append-nil w.replies);
      answered = refl;
      grown = sym (append-nil w.state.chain.blocks);
      kept = v;
    },
  )
  writer_loop-Served w ((env, r) ∷ rs) v =
      let (reply, s', os', e, h, v') = handle_request_lem lib env r.event w.state w.log v in
      let u : Writer Json = record {
        state = s';
        log = os';
        replies = w.replies ++ (r.respond_to, reply) ∷ [];
      } in
      let (w', x, d) = writer_loop-Served u rs v' in
      (
        w',
        rw (e, writer_loop) x,
        record {
          new = (r.respond_to, reply) ∷ d.new;
          replies = d.replies ∙ append_assoc w.replies ((r.respond_to, reply) ∷ []) d.new;
          answered = ap (◌∷◌ r.respond_to) d.answered;
          grown =
              d.grown
              ∙ ap (λ l. l ++ blocks_in d.new) (Handled-blocks r.respond_to h)
              ∙ append_assoc w.state.chain.blocks (blocks_in ((r.respond_to, reply) ∷ []))
                  (blocks_in d.new)
              ∙ ap (λ l. w.state.chain.blocks ++ l) (sym (blocks_in-cons r.respond_to reply d.new));
          kept = d.kept;
        },
      )

  failed-refuses :
      (env : Surroundings) (event : EventPayload Json) (s : AppState Json) (os : Stream)
      → Inv lib s os
      → os.failed ≡ true
      → (e : Exception) × (handle_request lib env s os event ≡ some (err e, s, os))
  unfolding handle_request persisted
  failed-refuses env event s os v f =
      elim (Result-cases (make_block lib env.now (size s.chain) event v.tail.hash)) [
        | inr (m, p) ↦
            (json_error m, rw (build_next-total lib env.now s os event v, handle_request, p))
        | inl (b, p) ↦
            let (e, a) = append_block-failed lib env.disk os b f in
            (e, rw (build_next-total lib env.now s os event v, handle_request, p, a))
      ]

  -- A write that failed is final: from a sound state whose log has failed, every request, however
  -- many and whatever the disk does, is answered with an error, and nothing changes but the replies.
  pub writer_loop_stuck :
      (w : Writer Json) (rs : List (Surroundings × WriteRequest Json))
      → Inv lib w.state w.log
      → w.log.failed ≡ true
      → (w' : Writer Json) × (new : List (ℕ × Result Exception (Block Json))) × (writer_loop lib w
            rs
          ≡ some w')
        × (w'.state ≡ w.state)
        × (w'.log ≡ w.log)
        × (w'.replies ≡ w.replies ++ new)
        × (promises new ≡ requested rs)
        × (blocks_in new ≡ [])
  unfolding writer_loop
  writer_loop_stuck w [] v f = (w, [], refl, refl, refl, sym (append-nil w.replies), refl, refl)
  writer_loop_stuck w ((env, r) ∷ rs) v f =
      let (e, h) = failed-refuses env r.event w.state w.log v f in
      let u : Writer Json = record w { replies = w.replies ++ (r.respond_to, err e) ∷ [] } in
      let (w', new, x, ps, pl, pr, pp, pb) = writer_loop_stuck u rs v f in
      (
        w',
        (r.respond_to, err e) ∷ new,
        rw (h, writer_loop) x,
        ps,
        pl,
        pr ∙ append_assoc w.replies ((r.respond_to, err e) ∷ []) new,
        ap (◌∷◌ r.respond_to) pp,
        pb,
      )

  module _ (laws : Laws lib) where
    -- When the loop began in a sound state and the log has not failed by its end, and every block of
    -- the chain has a 64-bit index and metadata that a dump keeps, the file loads as exactly the
    -- chain in memory, and the chain verifies.
    pub writer_loop_durable :
        (w w' : Writer Json) (rs : List (Surroundings × WriteRequest Json)) (now : ℕ)
        → Inv lib w.state w.log
        → writer_loop lib w rs ≡ some w'
        → w'.log.failed ≡ false
        → All (IsStorable lib laws) w'.state.chain.blocks
        → (load_chain lib now (some w'.log.contents) ≡ ok (w'.state.chain))
          × (verify lib w'.state.chain ≡ ok (passed (size w'.state.chain) (size w'.state.chain)))
    unfolding load latest
    writer_loop_durable w w' rs now v h f s =
        let (u, x, d) = writer_loop-Served w rs v in
        let same : w' ≡ u = some_inj (sym h ∙ x) in
        let k = subst (λ (y : Writer Json). Inv lib y.state y.log) (sym same) d.kept in
        (
          load_chain-Encodes lib laws now w'.log.contents w'.state.chain.blocks
              (λ z. cc (k.tail_is, ap get_last? z)) s (k.on_disk f),
          verify-IsIntact lib w'.state.chain k.intact,
        )
