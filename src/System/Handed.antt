-- ===== src/System/Handed.antt =====
-- What one consumer of the live feed of storage-core is handed while the threads run, against the
-- chain.
use mathlib.Core.List.{append_assoc, append-nil}
use iot_devices_ledger_audit.Prelude.{
  ℕ, ◌^◌, ◌≤◌, ◌<◌, ◌≡◌, refl, sym, ap, subst, ◌∙◌, false, List, [], ◌∷◌, ◌++◌, Option, some,
  length, length-append, set, ◌==◌, if◌then◌else◌, some_inj, arith,
}
use iot_devices_ledger_audit.Json.{Library}
use iot_devices_ledger_audit.Block.{Block}
use iot_devices_ledger_audit.Broadcast.{
  Broadcaster, Subscription, Item, lock, next, no_subscribers, close, subscribe,
}
use iot_devices_ledger_audit.Broadcast.Fed.{Fed, items_of, next-Fed, close-Fed}
use iot_devices_ledger_audit.Broadcast.Feeds.{
  IsFed, publish-IsFed, subscribe-IsFed, subscribe-IsFed_own, set-IsFed, release-IsFed,
}
use iot_devices_ledger_audit.Writer.Request
use iot_devices_ledger_audit.Writer.Request.{HubSound}
use iot_devices_ledger_audit.System.Defs.{
  System, WriterStep, Step, Steps, Begins, writes, submits, subscribes, receives, hangs_up,
  releases, closes, here, later, with_hub,
}
use iot_devices_ledger_audit.System.Moves.{submit_event_ok}
use iot_devices_ledger_audit.System.Safety.{reachable-Inv}
use iot_devices_ledger_audit.System.Clients.{Current, Steps-Current, fan_out-publish}

module _ (lib : Library) where
  open lib use {Json}

  -- What `next` gives to the consumer of the cell `id`, in a step and in a run.
  unfoldable pub handed_by : (id : ℕ) (s t : System Json) → Step lib s t → List (Item (Block Json))
  handed_by id s t (receives h j sub sub' item e l n) = if j == id then items_of item else []
  handed_by id s t (writes w) = []
  handed_by id s t (submits promise req event app' d x) = []
  handed_by id s t (subscribes h capacity e n) = []
  handed_by id s t (hangs_up h j sub e l) = []
  handed_by id s t (releases h j e) = []
  handed_by id s t (closes q e) = []

  unfoldable pub handed : (id : ℕ) (s t : System Json) → Steps lib s t → List (Item (Block Json))
  unfolding handed_by
  handed id s t here = []
  handed id s t (later {t = u} p x) = handed id s u p ++ handed_by id u t x

  pub Steps-append : (s t u : System Json) → Steps lib s t → Steps lib t u → Steps lib s u
  Steps-append s t u p here = p
  Steps-append s t u p (later {t = w} q x) = later (Steps-append s t w p q) x

  -- The consumer of `id` since a state in which `before` had been published.
  pub record Watched (before : List (Block Json)) (id : ℕ) (items : List (Item (Block Json)))
      (u : System Json) : Type 0 where
    pub since : List (Block Json)
    pub told_is : u.told ≡ before ++ since
    pub fed : (h : Broadcaster (Block Json)) → u.app.broadcaster ≡ some h → IsFed since items id h

  module _ (before : List (Block Json)) (id : ℕ) (items : List (Item (Block Json))) where
    WriterStep-Watched :
        (u w : System Json)
        → WriterStep lib u w
        → HubSound u.app.broadcaster
        → Current lib u
        → length w.told < 2 ^ 64
        → Watched before id items u
        → Watched before id items w
    WriterStep-Watched u w (WriterStep.publishes r b app' e f) v c few k = record {
      since = k.since ++ b ∷ [];
      told_is = ap (λ l. l ++ b ∷ []) k.told_is ∙ append_assoc before k.since (b ∷ []);
      fed = λ h' at'.
          let (h, at, p) = fan_out-publish lib u.app app' b h' f at' in
          publish-IsFed k.since items id h h' b (subst HubSound at v) p
            (omega (
              arith,
              ap length k.told_is,
              length-append before k.since,
              length-append u.told (b ∷ []),
            ))
            (λ s l o. (c h at id s l o).0) (k.fed h at);
    }
    WriterStep-Watched u w x v c few k = record {
      since = k.since;
      told_is = k.told_is;
      fed = k.fed;
    }

    -- A step that gives this consumer nothing.
    unhanded : (w : System Json) → Watched before id items w → Watched before id (items ++ []) w
    unhanded w k = subst (λ l. Watched before id l w) (sym (append-nil items)) k

    -- A step of a connection: one cell changes.
    module _ (u : System Json) (h : Broadcaster (Block Json)) (at : u.app.broadcaster ≡ some h)
        (k : Watched before id items u) where
      rehubbed :
          (items' : List (Item (Block Json))) (h' : Broadcaster (Block Json))
          → IsFed k.since items' id h'
          → Watched before id items' (record u { app = with_hub u.app h' })
      rehubbed items' h' f = record {
        since = k.since;
        told_is = k.told_is;
        fed = λ g e. subst (IsFed k.since items' id) (some_inj e) f;
      }

      not_own :
          (j : ℕ) (item : Option (Item (Block Json)))
          → (j == id) ≡ false
          → items ≡ items ++ (if j == id then items_of item else [])
      not_own j item n = rw n (sym (append-nil items))

      own :
          (j : ℕ) (item : Option (Item (Block Json)))
          → j ≡ id
          → items ++ items_of item ≡ items ++ (if j == id then items_of item else [])
      own j item e = ground (arith, e)

      receives-Watched :
          (j : ℕ) (sub sub' : Subscription (Block Json)) (item : Option (Item (Block Json)))
          (l : lock h.cells j ≡ some sub) (n : next sub ≡ some (item, sub'))
          → let w = record u {
            app = with_hub u.app (record h { cells = set h.cells j (some sub') });
          } in
            Watched before id (items ++ (if j == id then items_of item else [])) w
      receives-Watched j sub sub' item l n = rehubbed _ _ (
          set-IsFed k.since items (items ++ (if j == id then items_of item else [])) id h j sub sub'
            l
            (λ e f.
              subst (λ x. Fed k.since x sub') (own j item e)
                (next-Fed k.since items sub sub' item n f))
            (not_own j item) (k.fed h at))

      hangs_up-Watched :
          (j : ℕ) (sub : Subscription (Block Json))
          → lock h.cells j ≡ some sub
          → let w = record u {
            app = with_hub u.app (record h { cells = set h.cells j (some (close sub)) });
          } in
            Watched before id items w
      hangs_up-Watched j sub l = rehubbed items _ (
          set-IsFed k.since items items id h j sub (close sub) l
            (λ _ f. close-Fed k.since items sub f) (λ _. refl) (k.fed h at))

    Step-Watched :
        (u w : System Json) (x : Step lib u w)
        → HubSound u.app.broadcaster
        → Current lib u
        → length w.told < 2 ^ 64
        → Watched before id items u
        → Watched before id (items ++ handed_by id u w x) w
    unfolding handed_by
    Step-Watched u w (writes x) v c few k = unhanded w (WriterStep-Watched u w x v c few k)
    Step-Watched u w (submits promise req event app' d x) v c few k = unhanded w (record {
      since = k.since;
      told_is = k.told_is;
      fed = λ h e. k.fed h (sym (submit_event_ok lib u.app app' promise req event d x).1 ∙ e);
    })
    Step-Watched u w (subscribes h capacity e n) v c few k =
        unhanded w
          (rehubbed u h e k items _ (subscribe-IsFed k.since items id h capacity (k.fed h e)))
    Step-Watched u w (receives h j sub sub' item e l n) v c few k =
        receives-Watched u h e k j sub sub' item l n
    Step-Watched u w (hangs_up h j sub e l) v c few k =
        unhanded w (hangs_up-Watched u h e k j sub l)
    Step-Watched u w (releases h j e) v c few k =
        unhanded w (rehubbed u h e k items _ (release-IsFed k.since items id h j (k.fed h e)))
    Step-Watched u w (closes q e) v c few k =
        unhanded w (record { since = k.since; told_is = k.told_is; fed = k.fed })

  WriterStep-told : (s t : System Json) → WriterStep lib s t → length s.told ≤ length t.told
  WriterStep-told s t (WriterStep.publishes r b app' e f) =
      omega (arith, length-append s.told (b ∷ []))
  WriterStep-told s t w = omega arith

  Step-told : (s t : System Json) → Step lib s t → length s.told ≤ length t.told
  Step-told s t (writes w) = WriterStep-told s t w
  Step-told s t x = omega arith

  -- The state after a subscription.
  abbrev pub subscribed : System Json → Broadcaster (Block Json) → ℕ → System Json
  subscribed t h capacity = record t { app = with_hub t.app (subscribe h capacity).1 }

  module _ (s : System Json) (b : Begins lib s) (v : Request.Inv lib s.app s.log)
      (f : s.log.failed ≡ false) (quiet : s.app.broadcaster ≡ some no_subscribers) where
    module _ (t : System Json) (h : Broadcaster (Block Json)) (capacity : ℕ) (p : Steps lib s t)
        (at : t.app.broadcaster ≡ some h) (room : 0 < capacity) where
      pub Steps-Watched :
          (u : System Json) (q : Steps lib (subscribed t h capacity) u)
          → length u.told < 2 ^ 64
          → let id = (subscribe h capacity).0 in
            Watched t.told id (handed id (subscribed t h capacity) u q) u
      unfolding handed
      Steps-Watched u here few = record {
        since = [];
        told_is = sym (append-nil t.told);
        fed = λ g e.
            subst (IsFed [] [] (subscribe h capacity).0) (some_inj e)
              (subscribe-IsFed_own h capacity);
      }
      Steps-Watched u (later {t = w} q x) few =
          let so_far =
            Steps-append s (subscribed t h capacity) w (later p (subscribes h capacity at room))
              q in
          Step-Watched t.told _ _ w u x (reachable-Inv lib s w b v f so_far).shared.hub
            (Steps-Current lib s b v f quiet w so_far) few
            (Steps-Watched w q (omega (arith, Step-told w u x)))
