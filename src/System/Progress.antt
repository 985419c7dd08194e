-- ===== src/System/Progress.antt =====
-- The writer thread of storage-core/src/writer.cpp on its own: where it can go on, and that it ends.
use iot_devices_ledger_audit.Prelude.{
  ℕ, zero, suc, ◌+◌, ◌*◌, ◌≤◌, ◌<◌, ◌≡◌, refl, ap, ◌∙◌, ◌⊎◌, inl, inr, true, false, List, [], none,
  some, length, Result-cases, Option-cases, arith,
}
use iot_devices_ledger_audit.Json.{Library}
use iot_devices_ledger_audit.Block.{Block, make_block}
use iot_devices_ledger_audit.Chain.{size}
use iot_devices_ledger_audit.Storage.{append_block}
use iot_devices_ledger_audit.Queue.{WriteQueue, pop}
use iot_devices_ledger_audit.Writer.{AppState, WriteRequest, build_next, fan_out}
use iot_devices_ledger_audit.Writer.Request
use iot_devices_ledger_audit.Writer.Request.{fan_out-total}
use iot_devices_ledger_audit.System.Defs.{System, Phase, WriterStep, Steps, Begins, writes, later}
use iot_devices_ledger_audit.System.Invariant.{queued, answered, Inv}
use iot_devices_ledger_audit.System.Safety.{reachable-Inv, answered_in_order}

module _ {Json : Type 0} where
  -- The steps to the end of the request in hand, at most.
  abbrev pub rank : Phase Json → ℕ
  rank Phase.ended = 0
  rank Phase.idle = 1
  rank (Phase.failed r e) = 2
  rank (Phase.published r b) = 2
  rank (Phase.pushed r b) = 3
  rank (Phase.persisted r b) = 4
  rank (Phase.built r b) = 5
  rank (Phase.popped r) = 6

  rank-le : (p : Phase Json) → rank p ≤ 6
  rank-le Phase.ended = omega arith
  rank-le Phase.idle = omega arith
  rank-le (Phase.failed r e) = omega arith
  rank-le (Phase.published r b) = omega arith
  rank-le (Phase.pushed r b) = omega arith
  rank-le (Phase.persisted r b) = omega arith
  rank-le (Phase.built r b) = omega arith
  rank-le (Phase.popped r) = omega arith

  -- A bound of the steps to the end of the thread, once the queue is closed.
  abbrev pub work : System Json → ℕ
  work s = 6 * length (queued s.app.write_queue) + rank s.phase

module _ (lib : Library) where
  open lib use {Json}

  -- `n` steps of the writer thread, with no other thread between them.
  pub data Alone (s : System Json) : ℕ → System Json → Type 0 where
    stays : Alone s zero s
    goes : {n : ℕ} {t u : System Json} → Alone s n t → WriterStep lib t u → Alone s (suc n) u

  pop-length :
      (q q' : WriteQueue (WriteRequest Json)) (r : WriteRequest Json)
      → pop q ≡ some (some r, q')
      → length q.items ≡ suc (length q'.items)
  unfolding pop
  pop-length q q' r h = ground arith

  pop-length_end :
      (q q' : WriteQueue (WriteRequest Json))
      → pop q ≡ some (none, q')
      → length q.items ≡ length q'.items
  unfolding pop
  pop-length_end q q' h = ground arith

  fan_out-queue :
      (s s' : AppState Json) (b : Block Json)
      → fan_out lib s b ≡ some s'
      → s'.write_queue ≡ s.write_queue
  unfolding fan_out
  fan_out-queue s s' b h = ground arith

  WriterStep-work : (s t : System Json) → WriterStep lib s t → work t < work s
  WriterStep-work s t (WriterStep.pops q q' r e k p) =
      rw (e, k) (omega (arith, pop-length q q' r p))
  WriterStep-work s t (WriterStep.ends q q' e k p) =
      rw (e, k) (omega (arith, pop-length_end q q' p))
  WriterStep-work s t (WriterStep.builds r now b e m) = rw e (omega arith)
  WriterStep-work s t (WriterStep.build_throws r now m e h) = rw e (omega arith)
  WriterStep-work s t (WriterStep.appends r b disk log' e a) = rw e (omega arith)
  WriterStep-work s t (WriterStep.append_throws r b disk x log' e a) = rw e (omega arith)
  WriterStep-work s t (WriterStep.pushes r b e) = rw e (omega arith)
  WriterStep-work s t (WriterStep.publishes r b app' e f) =
      rw (e, fan_out-queue s.app app' b f) (omega arith)
  WriterStep-work s t (WriterStep.replies r b e) = rw e (omega arith)
  WriterStep-work s t (WriterStep.refuses r x e) = rw e (omega arith)

  Alone-work : (s t : System Json) (n : ℕ) → Alone s n t → n + work t ≤ work s
  Alone-work s t n stays = omega arith
  Alone-work s t (suc n) (goes {t = u} p w) =
      omega (arith, Alone-work s u n p, WriterStep-work u t w)

  pop-none :
      (q : WriteQueue (WriteRequest Json)) → pop q ≡ none → (q.items ≡ []) × (q.closed ≡ false)
  unfolding pop
  pop-none q h = (ground arith, ground arith)

  append_step :
      (s : System Json) (r : WriteRequest Json) (b : Block Json)
      → s.phase ≡ Phase.built r b
      → (t : System Json) × WriterStep lib s t
  append_step s r b e = elim (Result-cases (append_block lib none s.log b).0) [
    | inl (u, a) ↦
        (_, WriterStep.appends r b none (append_block lib none s.log b).1 e (ground arith))
    | inr (x, a) ↦
        (_, WriterStep.append_throws r b none x (append_block lib none s.log b).1 e (ground arith))
  ]

  build_step :
      (first : List (Block Json)) (s : System Json) (r : WriteRequest Json)
      → Inv lib first s
      → s.phase ≡ Phase.popped r
      → (t : System Json) × WriterStep lib s t
  unfolding build_next
  build_step first s r v e =
      elim (Result-cases (make_block lib 0 (size s.app.chain) r.event v.shared.tail.hash)) [
        | inl (b, m) ↦ (_, WriterStep.builds r 0 b e (rw (v.shared.tail_is, build_next, m)))
        | inr (x, m) ↦ (_, WriterStep.build_throws r 0 x e (rw (v.shared.tail_is, build_next, m)))
      ]

  pop_step :
      (s : System Json) (q : WriteQueue (WriteRequest Json))
      → s.phase ≡ Phase.idle
      → s.app.write_queue ≡ some q
      → (pop q ≡ none) ⊎ ((t : System Json) × WriterStep lib s t)
  pop_step s q e k = elim (Option-cases (pop q)) [
    | inl h ↦ inl h
    | inr ((none, q'), h) ↦ inr (_, WriterStep.ends q q' e k h)
    | inr ((some r, q'), h) ↦ inr (_, WriterStep.pops q q' r e k h)
  ]

  goes_on :
      (first : List (Block Json)) (s : System Json) (q : WriteQueue (WriteRequest Json))
      → Inv lib first s
      → s.app.write_queue ≡ some q
      → (s.phase ≡ Phase.ended)
        ⊎ (((s.phase ≡ Phase.idle) × (q.items ≡ []) × (q.closed ≡ false))
            ⊎ ((t : System Json) × WriterStep lib s t))
  goes_on first s q v k = go s.phase refl
    where
      go :
          (p : Phase Json)
          → s.phase ≡ p
          → (s.phase ≡ Phase.ended)
            ⊎ (((s.phase ≡ Phase.idle) × (q.items ≡ []) × (q.closed ≡ false))
                ⊎ ((t : System Json) × WriterStep lib s t))
      go Phase.ended e = inl e
      go Phase.idle e = elim (pop_step s q e k) [
        | inl h ↦ inr (inl (e, (pop-none q h).0, (pop-none q h).1))
        | inr w ↦ inr (inr w)
      ]
      go (Phase.popped r) e = inr (inr (build_step first s r v e))
      go (Phase.built r b) e = inr (inr (append_step s r b e))
      go (Phase.persisted r b) e = inr (inr (_, WriterStep.pushes r b e))
      go (Phase.pushed r b) e =
          let (x, f, _, _) = fan_out-total lib s.app b v.shared.hub in
          inr (inr (_, WriterStep.publishes r b x e f))
      go (Phase.published r b) e = inr (inr (_, WriterStep.replies r b e))
      go (Phase.failed r x) e = inr (inr (_, WriterStep.refuses r x e))

  WriterStep-closed :
      (s t : System Json) (q : WriteQueue (WriteRequest Json))
      → WriterStep lib s t
      → s.app.write_queue ≡ some q
      → q.closed ≡ true
      → (q' : WriteQueue (WriteRequest Json)) × (t.app.write_queue ≡ some q') × (q'.closed ≡ true)
  unfolding pop
  WriterStep-closed s t q (WriterStep.pops o o' r e k' p) k c = (o', refl, ground arith)
  WriterStep-closed s t q (WriterStep.ends o o' e k' p) k c = (o', refl, ground arith)
  WriterStep-closed s t q (WriterStep.publishes r b app' e f) k c =
      (q, fan_out-queue s.app app' b f ∙ k, c)
  WriterStep-closed s t q w k c = (q, k, c)

  Alone-closed :
      (s t : System Json) (n : ℕ) (q : WriteQueue (WriteRequest Json))
      → Alone s n t
      → s.app.write_queue ≡ some q
      → q.closed ≡ true
      → (q' : WriteQueue (WriteRequest Json)) × (t.app.write_queue ≡ some q') × (q'.closed ≡ true)
  Alone-closed s t n q stays k c = (q, k, c)
  Alone-closed s t (suc n) q (goes {t = u} p w) k c =
      let (o, ko, co) = Alone-closed s u n q p k c in WriterStep-closed u t o w ko co

  pub Alone-Steps : (s t u : System Json) (n : ℕ) → Steps lib s t → Alone t n u → Steps lib s u
  Alone-Steps s t u n p stays = p
  Alone-Steps s t u (suc n) p (goes {t = m} a w) = later (Alone-Steps s t m n p a) (writes w)

  module _ (s t : System Json) (q : WriteQueue (WriteRequest Json)) (b : Begins lib s)
      (v : Request.Inv lib s.app s.log) (f : s.log.failed ≡ false) (p : Steps lib s t)
      (k : t.app.write_queue ≡ some q) where
    -- From a state that `run` has made, with a sound chain and a good log, the threads never get to
    -- a state where the writer is stuck: it has ended, or it waits in `pop` with the queue open and
    -- empty, or a step is open to it.
    pub writer_goes_on :
        (t.phase ≡ Phase.ended)
        ⊎ (((t.phase ≡ Phase.idle) × (q.items ≡ []) × (q.closed ≡ false))
            ⊎ ((u : System Json) × WriterStep lib t u))
    writer_goes_on = goes_on s.app.chain.blocks t q (reachable-Inv lib s t b v f p) k

    -- Once the queue is closed, and from any reachable state, the writer on its own takes at most
    -- six steps for each queued request and six more. After any number of its steps, a further one
    -- is open to it, or it has ended and has answered every request that the queue ever took.
    pub writer_ends :
        (n : ℕ) (u : System Json)
        → q.closed ≡ true
        → Alone t n u
        → (n ≤ 6 * length q.items + 6)
          × (((u.phase ≡ Phase.ended) × (u.accepted ≡ answered u.replies))
              ⊎ ((w : System Json) × WriterStep lib u w))
    writer_ends n u c a =
        let (o, ko, co) = Alone-closed t u n q a k c in
        let r = Alone-Steps s t u n p a in
        (
          omega (arith, Alone-work t u n a, rank-le t.phase, ap (λ x. length (queued x)) k),
          elim (goes_on s.app.chain.blocks u o (reachable-Inv lib s u b v f r) ko) [
            | inl e ↦ inl (e, (answered_in_order lib s u b v f r).2 e)
            | inr (inl (e, i, op)) ↦ absurd (cc (co, op))
            | inr (inr w) ↦ inr w
          ],
        )
