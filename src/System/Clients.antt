-- ===== src/System/Clients.antt =====
-- What the clients of the live feed of storage-core are yet to be sent, against the chain.
use mathlib.Core.List.{append_assoc}
use iot_devices_ledger_audit.Prelude.{
  ℕ, ◌≡◌, sym, ap, subst, ◌∙◌, inl, inr, true, false, List, ◌++◌, some, Option-cases, some_inj,
  arith,
}
use iot_devices_ledger_audit.Json.{Library}
use iot_devices_ledger_audit.Block.{Block}
use iot_devices_ledger_audit.Broadcast.{
  Broadcaster, Subscription, lock, no_subscribers, close, publish,
}
use iot_devices_ledger_audit.Broadcast.Ids.{mem}
use iot_devices_ledger_audit.Writer.{AppState, fan_out}
use iot_devices_ledger_audit.Writer.Request
use iot_devices_ledger_audit.Writer.Request.{HubSound}
use iot_devices_ledger_audit.System.Defs.{
  System, WriterStep, Step, Steps, Begins, writes, submits, subscribes, receives, hangs_up,
  releases, closes, here, later,
}
use iot_devices_ledger_audit.System.Invariant.{untold}
use iot_devices_ledger_audit.System.Moves.{submit_event_ok}
use iot_devices_ledger_audit.System.Safety.{reachable-Inv}
use iot_devices_ledger_audit.System.Buffers.{
  IsCurrent, publish-IsCurrent, subscribe-IsCurrent, set-IsCurrent, release-IsCurrent, next-Ends,
}

module _ (lib : Library) where
  open lib use {Json}

  abbrev pub Current : System Json → Type 0
  Current s = (h : Broadcaster (Block Json)) → s.app.broadcaster ≡ some h → IsCurrent s.told h

  pub fan_out-publish :
      (s s' : AppState Json) (b : Block Json) (h' : Broadcaster (Block Json))
      → fan_out lib s b ≡ some s'
      → s'.broadcaster ≡ some h'
      → (h : Broadcaster (Block Json)) × (s.broadcaster ≡ some h) × (publish h b ≡ some h')
  unfolding fan_out
  fan_out-publish s s' b h' f e = elim (Option-cases s.broadcaster) [
    | inl n ↦ absurd (ground arith)
    | inr (h, k) ↦ (
      h,
      k,
      elim (Option-cases (publish h b)) [
        | inl p ↦ absurd (ground arith)
        | inr (x, p) ↦ ground arith
      ],
    )
  ]

  WriterStep-Current :
      (s t : System Json) → WriterStep lib s t → HubSound s.app.broadcaster → Current s → Current t
  WriterStep-Current s t (WriterStep.publishes r b app' e f) v c h' k =
      let (h, at, p) = fan_out-publish s.app app' b h' f k in
      publish-IsCurrent s.told h h' b (subst HubSound at v) p (c h at)
  WriterStep-Current s t w v c h' k = c h' k

  Step-Current :
      (s t : System Json) → Step lib s t → HubSound s.app.broadcaster → Current s → Current t
  unfolding close
  Step-Current s t (writes w) v c h' k = WriterStep-Current s t w v c h' k
  Step-Current s t (submits promise req event app' d x) v c h' k =
      c h' (sym (submit_event_ok lib s.app app' promise req event d x).1 ∙ k)
  Step-Current s t (subscribes h capacity e n) v c h' k =
      subst (IsCurrent s.told) (some_inj k) (subscribe-IsCurrent s.told h capacity (c h e))
  Step-Current s t (receives h id sub sub' item e l n) v c h' k =
      let (same, ends) = next-Ends sub sub' item n in
      subst (IsCurrent s.told) (some_inj k)
        (set-IsCurrent s.told h id sub sub' l (λ o. (sym same ∙ o, ends)) (c h e))
  Step-Current s t (hangs_up h id sub e l) v c h' k =
      subst (IsCurrent s.told) (some_inj k)
        (set-IsCurrent s.told h id sub (close sub) l (λ o. absurd (cc o)) (c h e))
  Step-Current s t (releases h id e) v c h' k =
      subst (IsCurrent s.told) (some_inj k) (release-IsCurrent s.told h id (c h e))
  Step-Current s t (closes q e) v c h' k = c h' k

  module _ (s : System Json) (b : Begins lib s) (v : Request.Inv lib s.app s.log)
      (f : s.log.failed ≡ false) (quiet : s.app.broadcaster ≡ some no_subscribers) where
    Begins-Current : Current s
    unfolding lock
    Begins-Current h k id sub l o =
        let is = some_inj (sym quiet ∙ k) in
        absurd
          (cc (subst (λ (x : Broadcaster (Block Json)). lock x.cells id ≡ some sub) (sym is) l))

    pub Steps-Current : (t : System Json) → Steps lib s t → Current t
    Steps-Current t here = Begins-Current
    Steps-Current t (later {t = u} p x) =
        Step-Current u t x (reachable-Inv lib s u b v f p).shared.hub (Steps-Current u p)

    -- From a state that `run` has made, with a sound chain, a good log and no subscriber, and
    -- whatever the interleaving: a subscription that is open is on the list of the broadcaster, and
    -- what waits in its buffer are the last blocks of the chain, in order and with none left out, up
    -- to the one that is pushed and not published yet.
    pub buffers_current :
        (t : System Json) (h : Broadcaster (Block Json)) (id : ℕ) (sub : Subscription (Block Json))
        → Steps lib s t
        → t.app.broadcaster ≡ some h
        → lock h.cells id ≡ some sub
        → sub.closed ≡ false
        → (mem id h.subscribers ≡ true)
          × ((before : List (Block Json)) × (t.app.chain.blocks
                ≡ before ++ (sub.buffer ++ untold t.phase)))
    buffers_current t h id sub p k l o =
        let (m, (before, e)) = Steps-Current t p h k id sub l o in
        let i = reachable-Inv lib s t b v f p in
        (
          m,
          (
            s.app.chain.blocks ++ before,
            i.in_chain
                ∙ ap (λ x. s.app.chain.blocks ++ (x ++ untold t.phase)) e
                ∙ ap (λ x. s.app.chain.blocks ++ x)
                    (append_assoc before sub.buffer (untold t.phase))
                ∙ sym (append_assoc s.app.chain.blocks before (sub.buffer ++ untold t.phase)),
          ),
        )
