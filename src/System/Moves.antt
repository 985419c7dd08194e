-- ===== src/System/Moves.antt =====
-- Every step of the threads keeps the invariant.
use mathlib.Core.List.{append_assoc, append-nil}
use iot_devices_ledger_audit.Prelude.{
  ℕ, ◌≡◌, refl, sym, ap, subst, ◌∙◌, false, List, [], ◌∷◌, ◌++◌, Option, some, ok, Option-cases,
  inl, inr, arith,
}
use iot_devices_ledger_audit.Json.{Library}
use iot_devices_ledger_audit.Block.{Block, EventPayload}
use iot_devices_ledger_audit.Queue.{WriteQueue, pop, push}
use iot_devices_ledger_audit.Queue
use iot_devices_ledger_audit.Broadcast.{subscribe, release, close}
use iot_devices_ledger_audit.Broadcast.Sound.{subscribe_lem}
use iot_devices_ledger_audit.Writer.{WriteRequest, AppState}
use iot_devices_ledger_audit.Writer.Request.{HubSound, fan_out-total}
use iot_devices_ledger_audit.Server.{Request, validate, submit_event, enqueue, pushed}
use iot_devices_ledger_audit.Writer.Request
use iot_devices_ledger_audit.System.Defs.{
  Phase, System, Step, Steps, Begins, with_queue, with_hub, writes, submits, subscribes, receives,
  hangs_up, releases, closes, here, later, begins,
}
use iot_devices_ledger_audit.System.OnDisk.{Encodes-OnDisk}
use iot_devices_ledger_audit.System.Hub.{
  release-IsSound, set-IsSound, next-capacity, close-capacity,
}
use iot_devices_ledger_audit.System.Invariant.{in_hand, queued, answered, Drained, Over, Inv}
use iot_devices_ledger_audit.System.Phases.{WriterStep-Inv}

module _ (lib : Library) where
  open lib use {Json}

  pub submit_event_ok :
      (a app' : AppState Json) (promise : ℕ) (req : Request) (event : EventPayload Json)
      → validate lib req.body ≡ ok event
      → submit_event lib a promise req ≡ some (ok app')
      → (app'.chain ≡ a.chain)
        × (app'.broadcaster ≡ a.broadcaster)
        × (queued app'.write_queue
            ≡ queued a.write_queue ++ record { event = event; respond_to = promise } ∷ [])
        × ¬ (Drained a.write_queue)
  unfolding submit_event enqueue pushed push
  submit_event_ok a app' promise req event d h = elim (Option-cases a.write_queue) [
    | inl n ↦ absurd (ground arith)
    | inr (q, k) ↦
        let h' = rw (d, submit_event) at h in
        (ground arith, ground arith, ground arith, rw k (λ o. ground arith))
  ]

  Over-open :
      (p : Phase Json) (q q' : Option (WriteQueue (WriteRequest Json)))
      → ¬ (Drained q)
      → Over p q
      → Over p q'
  Over-open Phase.ended q q' n o = absurd (n o)
  Over-open Phase.idle q q' n o = tt
  Over-open (Phase.popped r) q q' n o = tt
  Over-open (Phase.built r b) q q' n o = tt
  Over-open (Phase.persisted r b) q q' n o = tt
  Over-open (Phase.pushed r b) q q' n o = tt
  Over-open (Phase.published r b) q q' n o = tt
  Over-open (Phase.failed r e) q q' n o = tt

  Over-close :
      (p : Phase Json) (q : WriteQueue (WriteRequest Json))
      → Over p (some q)
      → Over p (some (Queue.close q))
  unfolding Queue.close
  Over-close Phase.ended q o = (refl, o.1)
  Over-close Phase.idle q o = tt
  Over-close (Phase.popped r) q o = tt
  Over-close (Phase.built r b) q o = tt
  Over-close (Phase.persisted r b) q o = tt
  Over-close (Phase.pushed r b) q o = tt
  Over-close (Phase.published r b) q o = tt
  Over-close (Phase.failed r e) q o = tt

  -- What another thread does to the shared state, at any point of the writer.
  rewired :
      (first : List (Block Json)) (s : System Json) (app' : AppState Json)
      (accepted : List (WriteRequest Json))
      → app'.chain ≡ s.app.chain
      → HubSound app'.broadcaster
      → accepted ≡ answered s.replies ++ (in_hand s.phase ++ queued app'.write_queue)
      → Over s.phase app'.write_queue
      → Inv lib first s
      → Inv lib first (record s { app = app'; accepted = accepted })
  rewired first s app' accepted c h a o v = record {
    shared = rw c (record {
      tail = v.shared.tail;
      tail_is = v.shared.tail_is;
      intact = v.shared.intact;
      hub = h;
    });
    fits = rw c v.fits;
    on_disk = rw c v.on_disk;
    in_chain = rw c v.in_chain;
    given = v.given;
    accounted = a;
    over = o;
    carried = v.carried;
  }

  Step-Inv :
      (first : List (Block Json)) (s t : System Json)
      → Step lib s t
      → Inv lib first s
      → Inv lib first t
  unfolding release Queue.close
  Step-Inv first s t (writes w) v = WriterStep-Inv lib first s t w v
  Step-Inv first s t (submits promise req event app' d h) v =
      let (c, b, q, n) = submit_event_ok s.app app' promise req event d h in
      rewired first s app' _ c (rw b v.shared.hub)
        (ap (λ l. l ++ record { event = event; respond_to = promise } ∷ []) v.accounted
          ∙ append_assoc (answered s.replies) _ _
          ∙ ap (λ l. answered s.replies ++ l)
              (append_assoc (in_hand s.phase) (queued s.app.write_queue) _
                ∙ ap (λ l. in_hand s.phase ++ l) (sym q)))
        (Over-open s.phase s.app.write_queue app'.write_queue n v.over) v
  Step-Inv first s t (subscribes h capacity e k) v =
      rewired first s (with_hub s.app (subscribe h capacity).1) s.accepted refl
        (subscribe_lem h capacity (subst HubSound e v.shared.hub) k).3 v.accounted v.over v
  Step-Inv first s t (receives h id sub sub' item e l n) v =
      rewired first s _ s.accepted refl
        (set-IsSound h id sub sub' l (next-capacity sub sub' item n)
          (subst HubSound e v.shared.hub))
        v.accounted v.over v
  Step-Inv first s t (hangs_up h id sub e l) v =
      rewired first s _ s.accepted refl
        (set-IsSound h id sub (close sub) l (close-capacity sub) (subst HubSound e v.shared.hub))
        v.accounted v.over v
  Step-Inv first s t (releases h id e) v =
      rewired first s _ s.accepted refl (release-IsSound h id (subst HubSound e v.shared.hub))
        v.accounted v.over v
  Step-Inv first s t (closes q e) v =
      rewired first s (with_queue s.app (Queue.close q)) s.accepted refl v.shared.hub
        (rw e at v.accounted) (Over-close s.phase q (rw e at v.over)) v

  -- The invariant holds wherever the threads get from a state in which it holds.
  pub Steps-Inv :
      (first : List (Block Json)) (s t : System Json)
      → Steps lib s t
      → Inv lib first s
      → Inv lib first t
  Steps-Inv first s t here v = v
  Steps-Inv first s t (later {t = u} p w) v = Step-Inv first u t w (Steps-Inv first s u p v)

  -- `run` makes a state in which it holds.
  pub Begins-Inv :
      (s : System Json)
      → Begins lib s
      → Request.Inv lib s.app s.log
      → s.log.failed ≡ false
      → Inv lib s.app.chain.blocks s
  unfolding Queue.empty
  Begins-Inv s (begins app log capacity e) v f = record {
    shared = record { tail = v.tail; tail_is = v.tail_is; intact = v.intact; hub = v.hub };
    fits = tt;
    on_disk =
        Encodes-OnDisk lib log (app.chain.blocks ++ [])
          (rw (append-nil app.chain.blocks) (v.on_disk f));
    in_chain = sym (append-nil app.chain.blocks);
    given = refl;
    accounted = sym (ap queued e);
    over = tt;
    carried = tt;
  }
