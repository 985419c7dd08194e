-- ===== src/System/Placed.antt =====
-- The blocks that the writer of storage-core/src/writer.cpp publishes, whatever the other threads do:
-- their indices are their places in the chain, and they have a dump.
use iot_devices_ledger_audit.Prelude.{
  ◌+◌, ◌≡◌, sym, ap, subst, false, List, [], ◌∷◌, ◌++◌, length, length-append, some_inj, ok, All,
  All-left, All-right, arith,
}
use iot_devices_ledger_audit.Prelude.Bytes.{Bytes}
use iot_devices_ledger_audit.Json.{Library}
use iot_devices_ledger_audit.Storage.Reload.{Encodes-All}
use iot_devices_ledger_audit.Block.{Block, block_to_json}
use iot_devices_ledger_audit.Chain.{Chain, size, push_persisted}
use iot_devices_ledger_audit.Chain.Growth.{make_block-Follows}
use iot_devices_ledger_audit.Writer.{build_next}
use iot_devices_ledger_audit.Writer.Request
use iot_devices_ledger_audit.Feed.CatchUp.{Numbered, Numbered-append}
use iot_devices_ledger_audit.System.Defs.{
  System, Phase, WriterStep, Step, Steps, Begins, writes, submits, here, later, begins,
}
use iot_devices_ledger_audit.System.Invariant.{Inv, untold, written}
use iot_devices_ledger_audit.System.Moves.{submit_event_ok}
use iot_devices_ledger_audit.System.Safety.{reachable-Inv}

module _ {Json : Type 0} where
  -- The index of the block in the writer's hands.
  abbrev pub Next : Chain Json → Phase Json → Type 0
  Next c (Phase.built r b) = b.index ≡ length c.blocks
  Next c (Phase.persisted r b) = b.index ≡ length c.blocks
  Next c (Phase.pushed r b) = b.index + 1 ≡ length c.blocks
  Next c Phase.idle = Unit {0}
  Next c (Phase.popped r) = Unit {0}
  Next c (Phase.published r b) = Unit {0}
  Next c (Phase.failed r e) = Unit {0}
  Next c Phase.ended = Unit {0}

  -- `first` are the blocks that the chain began with.
  pub record Placed (first : List (Block Json)) (s : System Json) : Type 0 where
    pub told : Numbered (length first) s.told
    pub next : Next s.app.chain s.phase

module _ (lib : Library) where
  open lib use {Json, dump}

  WriterStep-Placed :
      (first : List (Block Json)) (s t : System Json)
      → WriterStep lib s t
      → Inv lib first s
      → Placed first s
      → Placed first t
  unfolding push_persisted build_next size
  WriterStep-Placed first s t (WriterStep.builds r now b e m) v k =
      let made_it = some_inj (rw (v.shared.tail_is, build_next) at m) in
      record {
        told = k.told;
        next =
            (make_block-Follows lib now (size s.app.chain) r.event v.shared.tail.hash b made_it).0;
      }
  WriterStep-Placed first s t (WriterStep.appends r b disk log' e a) v k = record {
    told = k.told;
    next = rw e at k.next;
  }
  WriterStep-Placed first s t (WriterStep.pushes r b e) v k =
      let n : b.index ≡ length s.app.chain.blocks = rw e at k.next in
      record { told = k.told; next = omega (arith, n, length-append s.app.chain.blocks (b ∷ [])) }
  WriterStep-Placed first s t (WriterStep.publishes r b app' e f) v k =
      let n : b.index + 1 ≡ length s.app.chain.blocks = rw e at k.next in
      let c : s.app.chain.blocks ≡ first ++ (s.told ++ b ∷ []) = rw e at v.in_chain in
      record {
        told = Numbered-append (length first) s.told (b ∷ []) k.told (
          omega (
            arith,
            n,
            ap length c,
            length-append first (s.told ++ b ∷ []),
            length-append s.told (b ∷ []),
          ),
          tt,
        );
        next = tt;
      }
  WriterStep-Placed first s t (WriterStep.pops q q' r e k p) v i = record {
    told = i.told;
    next = tt;
  }
  WriterStep-Placed first s t (WriterStep.ends q q' e k p) v i = record { told = i.told; next = tt }
  WriterStep-Placed first s t (WriterStep.build_throws r now m e h) v k = record {
    told = k.told;
    next = tt;
  }
  WriterStep-Placed first s t (WriterStep.append_throws r b disk x log' e a) v k = record {
    told = k.told;
    next = tt;
  }
  WriterStep-Placed first s t (WriterStep.replies r b e) v k = record { told = k.told; next = tt }
  WriterStep-Placed first s t (WriterStep.refuses r x e) v k = record { told = k.told; next = tt }

  Step-Placed :
      (first : List (Block Json)) (s t : System Json)
      → Step lib s t
      → Inv lib first s
      → Placed first s
      → Placed first t
  Step-Placed first s t (writes w) v k = WriterStep-Placed first s t w v k
  Step-Placed first s t (submits promise req event app' d x) v k = record {
    told = k.told;
    next =
        subst (λ (c : Chain Json). Next c s.phase)
          (sym (submit_event_ok lib s.app app' promise req event d x).0) k.next;
  }
  Step-Placed first s t x v k = record { told = k.told; next = k.next }

  Begins-Placed : (s : System Json) → Begins lib s → Placed s.app.chain.blocks s
  Begins-Placed s (begins app log capacity e) = record { told = tt; next = tt }

  -- Every block that was published has its place in the chain as its index.
  pub Steps-Placed :
      (s t : System Json)
      → Begins lib s
      → Request.Inv lib s.app s.log
      → s.log.failed ≡ false
      → Steps lib s t
      → Placed s.app.chain.blocks t
  Steps-Placed s t b v f here = Begins-Placed s b
  Steps-Placed s t b v f (later {t = u} p x) =
      Step-Placed s.app.chain.blocks u t x (reachable-Inv lib s u b v f p)
        (Steps-Placed s u b v f p)

  -- The dump of a block does not throw.
  abbrev pub Dumps : Block Json → Type 0
  Dumps x = (text : Bytes) × (dump (block_to_json lib x) ≡ ok text)

  -- Every block that was published was written, so it has a dump.
  pub told-Dumps :
      (s t : System Json)
      → Begins lib s
      → Request.Inv lib s.app s.log
      → s.log.failed ≡ false
      → Steps lib s t
      → All Dumps t.told
  told-Dumps s t b v f p =
      let i = reachable-Inv lib s t b v f p in
      All-left Dumps t.told (untold t.phase) (
        All-right Dumps s.app.chain.blocks (t.told ++ untold t.phase) (
          subst (All Dumps) i.in_chain (
            All-left Dumps t.app.chain.blocks (written t.phase) (Encodes-All lib i.on_disk.lines))))
