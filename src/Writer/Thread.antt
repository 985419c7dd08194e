-- ===== src/Writer/Thread.antt =====
-- The thread of `writer_loop`, storage-core/src/writer.cpp, on its queue: what a shutdown leaves.
use mathlib.Core.List.{append_assoc, append-nil}
use iot_devices_ledger_audit.Prelude.{
  ℕ, ◌+◌, ◌≡◌, refl, sym, ap, ◌∙◌, true, List, [], ◌∷◌, ◌++◌, none, some, Result, ok, err, map,
  length, arith,
}
use iot_devices_ledger_audit.Json.{Library}
use iot_devices_ledger_audit.Error.{Exception}
use iot_devices_ledger_audit.Block.{Block}
use iot_devices_ledger_audit.Queue.{WriteQueue, pop}
use iot_devices_ledger_audit.Writer.Defs.{Writer, WriteRequest, Surroundings, run_thread}
use iot_devices_ledger_audit.Writer.Request.{Inv}
use iot_devices_ledger_audit.Writer.Loop.{blocks_in, promises, writer_loop-Served}

module _ {Json : Type 0} where
  promises-append :
      (xs ys : List (ℕ × Result Exception (Block Json)))
      → promises (xs ++ ys) ≡ promises xs ++ promises ys
  promises-append [] ys = refl
  promises-append (x ∷ xs) ys = ap (λ l. x.0 ∷ l) (promises-append xs ys)

  blocks_in-append :
      (xs ys : List (ℕ × Result Exception (Block Json)))
      → blocks_in (xs ++ ys) ≡ blocks_in xs ++ blocks_in ys
  blocks_in-append [] ys = refl
  blocks_in-append ((p, ok b) ∷ xs) ys = ap (λ l. b ∷ l) (blocks_in-append xs ys)
  blocks_in-append ((p, err e) ∷ xs) ys = blocks_in-append xs ys

  pop-end :
      (q : WriteQueue (WriteRequest Json))
      → q.items ≡ []
      → q.closed ≡ true
      → pop q ≡ some (none, record q { items = [] })
  unfolding pop
  pop-end q i c = ground arith

  pop-front :
      (q : WriteQueue (WriteRequest Json)) (r : WriteRequest Json) (rest : List (WriteRequest Json))
      → q.items ≡ r ∷ rest
      → pop q ≡ some (some r, record q { items = rest })
  unfolding pop
  pop-front q r rest i = ground arith

module _ (lib : Library) where
  open lib use {Json}

  -- From `w` the thread got to `w'`, answering the requests `rs`.
  pub record Answered (w w' : Writer Json) (rs : List (WriteRequest Json)) : Type 0 where
    pub new : List (ℕ × Result Exception (Block Json))
    pub replies : w'.replies ≡ w.replies ++ new
    pub answered : promises new ≡ map (λ r. r.respond_to) rs
    pub grown : w'.state.chain.blocks ≡ w.state.chain.blocks ++ blocks_in new
    pub kept : Inv lib w'.state w'.log

  drain :
      (rs : List (WriteRequest Json)) (envs : List Surroundings) (w : Writer Json)
      (q : WriteQueue (WriteRequest Json))
      → Inv lib w.state w.log
      → q.items ≡ rs
      → q.closed ≡ true
      → length envs ≡ length rs + 1
      → (w' : Writer Json) × (run_thread lib envs w q ≡ some (true, w', record q { items = [] }))
        × Answered w w' rs
  unfolding run_thread
  drain rs [] w q v i c l = absurd (omega arith)
  drain [] (env ∷ envs) w q v i c l = (
    w,
    rw (pop-end q i c, run_thread) refl,
    record {
      new = [];
      replies = sym (append-nil w.replies);
      answered = refl;
      grown = sym (append-nil w.state.chain.blocks);
      kept = v;
    },
  )
  drain (r ∷ rs) (env ∷ envs) w q v i c l =
      let (u, e, s) = writer_loop-Served lib w ((env, r) ∷ []) v in
      let (w', f, t) = drain rs envs u (record q { items = rs }) s.kept refl c (omega arith) in
      (
        w',
        rw (pop-front q r rs i, run_thread) (rw e f),
        record {
          new = s.new ++ t.new;
          replies = t.replies ∙ ap (λ l. l ++ t.new) s.replies ∙ append_assoc w.replies s.new t.new;
          answered =
              promises-append s.new t.new
              ∙ ap (λ l. l ++ promises t.new) s.answered
              ∙ ap (λ l. r.respond_to ∷ l) t.answered;
          grown =
              t.grown
              ∙ ap (λ l. l ++ blocks_in t.new) s.grown
              ∙ append_assoc w.state.chain.blocks (blocks_in s.new) (blocks_in t.new)
              ∙ ap (λ l. w.state.chain.blocks ++ l) (sym (blocks_in-append s.new t.new));
          kept = t.kept;
        },
      )

  -- Once the queue is closed, the thread of a sound writer ends after as many rounds as requests
  -- are queued and one: it has answered each queued request exactly once, in order, and left none;
  -- the chain has grown by the blocks of the successful answers; and the state is sound.
  pub run_thread_drains :
      (envs : List Surroundings) (w : Writer Json) (q : WriteQueue (WriteRequest Json))
      → Inv lib w.state w.log
      → q.closed ≡ true
      → length envs ≡ length q.items + 1
      → (w' : Writer Json) × (run_thread lib envs w q ≡ some (true, w', record q { items = [] }))
        × Answered w w' q.items
  run_thread_drains envs w q v c l = drain q.items envs w q v refl c l
