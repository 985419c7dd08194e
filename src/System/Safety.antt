-- ===== src/System/Safety.antt =====
-- What the threads of storage-core keep true between them, whatever their interleaving.
use mathlib.Core.List.{append_assoc, append-nil}
use iot_devices_ledger_audit.Prelude.{
  ◌≡◌, refl, sym, ap, subst, ◌∙◌, false, List, [], ◌∷◌, ◌++◌, Option, none, some, ok, All, arith,
}
use iot_devices_ledger_audit.Json.{Library}
use iot_devices_ledger_audit.Block.{Block}
use iot_devices_ledger_audit.Chain.{verify, size, push_persisted}
use iot_devices_ledger_audit.Chain.Verdict.{passed}
use iot_devices_ledger_audit.Chain.Growth.{verify-IsIntact}
use iot_devices_ledger_audit.Queue.{WriteQueue}
use iot_devices_ledger_audit.Writer.{fan_out, WriteRequest}
use iot_devices_ledger_audit.Writer.Request
use iot_devices_ledger_audit.Server.{submit_event, enqueue, pushed}
use iot_devices_ledger_audit.System.Defs.{
  System, Phase, WriterStep, Step, Steps, Begins, writes, submits, here, later,
}
use iot_devices_ledger_audit.System.Invariant.{
  in_hand, written, untold, unanswered, queued, answered, made, Carries, Drained, Over, Inv,
}
use iot_devices_ledger_audit.System.OnDisk.{OnDisk}
use iot_devices_ledger_audit.System.Moves.{Steps-Inv, Begins-Inv}

Drained-queued :
    {Json : Type 0} (q : Option (WriteQueue (WriteRequest Json))) → Drained q → queued q ≡ []
Drained-queued none d = absurd d
Drained-queued (some q) d = d.1

module _ (lib : Library) where
  open lib use {Json}

  pub reachable-Inv :
      (s t : System Json)
      → Begins lib s
      → Request.Inv lib s.app s.log
      → s.log.failed ≡ false
      → Steps lib s t
      → Inv lib s.app.chain.blocks t
  reachable-Inv s t b v f p = Steps-Inv lib s.app.chain.blocks s t p (Begins-Inv lib s b v f)

  -- From a state that `run` has made, with a sound chain and a good log, and whatever the
  -- interleaving of the writer's phases with handlers and connections: the chain verifies. It
  -- consists of the blocks that it began with, then those that were given to callers, in the order
  -- of the answers, then the one that is published and not given yet, then the one that is pushed
  -- and not published yet. What was published is the first two of these. The file begins with a line for
  -- each block of the chain and then for the one that is written and not pushed yet.
  pub written_ahead :
      (s t : System Json)
      → Begins lib s
      → Request.Inv lib s.app s.log
      → s.log.failed ≡ false
      → Steps lib s t
      → (verify lib t.app.chain ≡ ok (passed (size t.app.chain) (size t.app.chain)))
        × (t.app.chain.blocks
            ≡ s.app.chain.blocks ++ (made t.replies ++ (unanswered t.phase ++ untold t.phase)))
        × (t.told ≡ made t.replies ++ unanswered t.phase)
        × OnDisk lib t.log (t.app.chain.blocks ++ written t.phase)
  written_ahead s t b v f p =
      let i = reachable-Inv s t b v f p in
      (
        verify-IsIntact lib t.app.chain i.shared.intact,
        i.in_chain
            ∙ ap (λ l. s.app.chain.blocks ++ l)
                (ap (λ l. l ++ untold t.phase) i.given
                  ∙ append_assoc (made t.replies) (unanswered t.phase) (untold t.phase)),
        i.given,
        i.on_disk,
      )

  -- Under the same conditions the requests that the queue took are those answered, the one in the
  -- writer's hands and those queued, in this order: each is answered once at most, none is lost, and
  -- none overtakes another. A block that answers a request carries its event. When the writer has
  -- ended, every request that the queue took has been answered.
  pub answered_in_order :
      (s t : System Json)
      → Begins lib s
      → Request.Inv lib s.app s.log
      → s.log.failed ≡ false
      → Steps lib s t
      → (t.accepted ≡ answered t.replies ++ (in_hand t.phase ++ queued t.app.write_queue))
        × All Carries t.replies
        × (t.phase ≡ Phase.ended → t.accepted ≡ answered t.replies)
  answered_in_order s t b v f p =
      let i = reachable-Inv s t b v f p in
      (
        i.accounted,
        i.carried,
        λ e.
            i.accounted
            ∙ ap (λ l. answered t.replies ++ l)
                (ap (λ q. in_hand q ++ queued t.app.write_queue) e
                  ∙ Drained-queued t.app.write_queue
                      (subst (λ q. Over q t.app.write_queue) e i.over))
            ∙ append-nil (answered t.replies),
      )

  WriterStep-grows :
      (s t : System Json)
      → WriterStep lib s t
      → (more : List (Block Json)) × (t.app.chain.blocks ≡ s.app.chain.blocks ++ more)
  unfolding push_persisted fan_out
  WriterStep-grows s t (WriterStep.pushes r b e) = (b ∷ [], refl)
  WriterStep-grows s t (WriterStep.publishes r b app' e f) =
      ([], ground (arith, append-nil s.app.chain.blocks))
  WriterStep-grows s t w = ([], sym (append-nil s.app.chain.blocks))

  Step-grows :
      (s t : System Json)
      → Step lib s t
      → (more : List (Block Json)) × (t.app.chain.blocks ≡ s.app.chain.blocks ++ more)
  unfolding submit_event enqueue pushed
  Step-grows s t (writes w) = WriterStep-grows s t w
  Step-grows s t (submits promise req event app' d h) =
      let h' = rw (d, submit_event) at h in ([], ground (arith, append-nil s.app.chain.blocks))
  Step-grows s t x = ([], sym (append-nil s.app.chain.blocks))

  -- The chain only grows: whatever the threads do, what a reader saw under the shared lock at one
  -- time is the beginning of what any reader sees later.
  pub snapshots_grow :
      (s t : System Json)
      → Steps lib s t
      → (more : List (Block Json)) × (t.app.chain.blocks ≡ s.app.chain.blocks ++ more)
  snapshots_grow s t here = ([], sym (append-nil s.app.chain.blocks))
  snapshots_grow s t (later {t = u} p x) =
      let (xs, e) = snapshots_grow s u p in
      let (ys, f) = Step-grows u t x in
      (xs ++ ys, f ∙ ap (λ l. l ++ ys) e ∙ append_assoc s.app.chain.blocks xs ys)
