-- ===== src/System/Phases.antt =====
-- Every step of the writer thread keeps the invariant.
use mathlib.Core.List.{append_assoc, append-nil}
use iot_devices_ledger_audit.Prelude.{
  ◌≡◌, sym, ap, subst, ◌∙◌, true, List, [], ◌∷◌, ◌++◌, none, some, ok, err, All-append, some_inj,
  arith,
}
use iot_devices_ledger_audit.Json.{Library}
use iot_devices_ledger_audit.Block.{Block}
use iot_devices_ledger_audit.Chain.{Chain, size, push_persisted}
use iot_devices_ledger_audit.Chain.Growth.{
  make_block-Follows, push_persisted-IsIntact, latest-push_persisted,
}
use iot_devices_ledger_audit.Queue.{WriteQueue, pop}
use iot_devices_ledger_audit.Writer.{WriteRequest, AppState, build_next, fan_out}
use iot_devices_ledger_audit.Writer.Request.{fan_out-total}
use iot_devices_ledger_audit.System.Defs.{System, WriterStep}
use iot_devices_ledger_audit.System.OnDisk.{append_block-OnDisk, append_block-OnDisk_error}
use iot_devices_ledger_audit.System.Invariant.{
  queued, answered, made, Carries, answered-append, made-append, Fits, Shared, Inv,
}

module _ (lib : Library) where
  open lib use {Json}

  pop-items :
      (q q' : WriteQueue (WriteRequest Json)) (r : WriteRequest Json)
      → pop q ≡ some (some r, q')
      → q.items ≡ r ∷ q'.items
  unfolding pop
  pop-items q q' r h = ground arith

  pop-items_end :
      (q q' : WriteQueue (WriteRequest Json))
      → pop q ≡ some (none, q')
      → (q.items ≡ []) × (q'.items ≡ []) × ((q'.closed ≡ true) × (q'.items ≡ []))
  unfolding pop
  pop-items_end q q' h = (ground arith, ground arith, (ground arith, ground arith))

  fan_out-write_queue :
      (s s' : AppState Json) (b : Block Json)
      → fan_out lib s b ≡ some s'
      → s'.write_queue ≡ s.write_queue
  unfolding fan_out
  fan_out-write_queue s s' b h = ground arith

  pub WriterStep-Inv :
      (first : List (Block Json)) (s t : System Json)
      → WriterStep lib s t
      → Inv lib first s
      → Inv lib first t
  unfolding push_persisted build_next
  WriterStep-Inv first s t (WriterStep.pops q q' r e k p) v = record {
    shared = v.shared;
    fits = tt;
    on_disk = rw e at v.on_disk;
    in_chain = rw e at v.in_chain;
    given = rw e at v.given;
    accounted = rw (e, k, pop-items q q' r p) at v.accounted;
    over = tt;
    carried = v.carried;
  }
  WriterStep-Inv first s t (WriterStep.ends q q' e k p) v = record {
    shared = v.shared;
    fits = tt;
    on_disk = rw e at v.on_disk;
    in_chain = rw e at v.in_chain;
    given = rw e at v.given;
    accounted = rw (pop-items_end q q' p).1 (rw (e, k, (pop-items_end q q' p).0) at v.accounted);
    over = (pop-items_end q q' p).2;
    carried = v.carried;
  }
  WriterStep-Inv first s t (WriterStep.builds r now b e m) v =
      let made_it = some_inj (rw (v.shared.tail_is, build_next) at m) in
      record {
        shared = v.shared;
        fits = (
          push_persisted-IsIntact lib s.app.chain v.shared.tail b now (size s.app.chain) r.event
              v.shared.tail_is made_it v.shared.intact,
          (make_block-Follows lib now (size s.app.chain) r.event v.shared.tail.hash b made_it).2,
        );
        on_disk = rw e at v.on_disk;
        in_chain = rw e at v.in_chain;
        given = rw e at v.given;
        accounted = rw e at v.accounted;
        over = tt;
        carried = v.carried;
      }
  WriterStep-Inv first s t (WriterStep.build_throws r now m e h) v = record {
    shared = v.shared;
    fits = tt;
    on_disk = rw e at v.on_disk;
    in_chain = rw e at v.in_chain;
    given = rw e at v.given;
    accounted = rw e at v.accounted;
    over = tt;
    carried = v.carried;
  }
  WriterStep-Inv first s t (WriterStep.appends r b disk log' e a) v = record {
    shared = v.shared;
    fits = rw e at v.fits;
    on_disk =
        append_block-OnDisk lib disk s.log log' b s.app.chain.blocks a
          (rw (append-nil s.app.chain.blocks) at (rw e at v.on_disk));
    in_chain = rw e at v.in_chain;
    given = rw e at v.given;
    accounted = rw e at v.accounted;
    over = tt;
    carried = v.carried;
  }
  WriterStep-Inv first s t (WriterStep.append_throws r b disk x log' e a) v = record {
    shared = v.shared;
    fits = tt;
    on_disk =
        append_block-OnDisk_error lib disk s.log log' b x (s.app.chain.blocks ++ []) a
          (rw e at v.on_disk);
    in_chain = rw e at v.in_chain;
    given = rw e at v.given;
    accounted = rw e at v.accounted;
    over = tt;
    carried = v.carried;
  }
  WriterStep-Inv first s t (WriterStep.pushes r b e) v =
      let fits = subst (Fits lib s.app.chain) e v.fits in
      record {
        shared = record {
          tail = b;
          tail_is = latest-push_persisted lib s.app.chain b;
          intact = fits.0;
          hub = v.shared.hub;
        };
        fits = fits.1;
        on_disk = rw (append-nil (s.app.chain.blocks ++ b ∷ [])) (rw e at v.on_disk);
        in_chain =
            ap (λ l. l ++ b ∷ []) (rw (append-nil s.told) at (rw e at v.in_chain))
            ∙ append_assoc first s.told (b ∷ []);
        given = rw e at v.given;
        accounted = rw e at v.accounted;
        over = tt;
        carried = v.carried;
      }
  WriterStep-Inv first s t (WriterStep.publishes r b app' e f) v =
      let (x, fx, same, sound) = fan_out-total lib s.app b v.shared.hub in
      let is : x ≡ app' = some_inj (sym fx ∙ f) in
      let chain_is : app'.chain ≡ s.app.chain =
        sym (ap (λ (a : AppState Json). a.chain) is) ∙ same in
      let queue_is = fan_out-write_queue s.app app' b f in
      record {
        shared =
            subst (λ (a : AppState Json). Shared lib a.chain a.broadcaster) is
              (rw same (record {
                tail = v.shared.tail;
                tail_is = v.shared.tail_is;
                intact = v.shared.intact;
                hub = sound;
              }));
        fits = subst (Fits lib s.app.chain) e v.fits;
        on_disk = rw chain_is (rw e at v.on_disk);
        in_chain =
            ap (λ (c : Chain Json). c.blocks) chain_is
            ∙ (rw e at v.in_chain)
            ∙ ap (λ l. first ++ l) (sym (append-nil (s.told ++ b ∷ [])));
        given =
            ap (λ l. l ++ b ∷ []) (rw e at v.given)
            ∙ ap (λ l. l ++ b ∷ []) (append-nil (made s.replies));
        accounted = rw queue_is (rw e at v.accounted);
        over = tt;
        carried = v.carried;
      }
  WriterStep-Inv first s t (WriterStep.replies r b e) v = record {
    shared = v.shared;
    fits = tt;
    on_disk = rw e at v.on_disk;
    in_chain = rw e at v.in_chain;
    given =
        (rw e at v.given)
        ∙ sym (ap (λ l. l ++ []) (made-append s.replies ((r, ok b) ∷ [])) ∙ append-nil _);
    accounted =
        (rw e at v.accounted)
        ∙ sym (append_assoc (answered s.replies) (r ∷ []) _)
        ∙ ap (λ l. l ++ queued s.app.write_queue)
            (sym (answered-append s.replies ((r, ok b) ∷ [])));
    over = tt;
    carried = All-append Carries s.replies _ v.carried (subst (Fits lib s.app.chain) e v.fits, tt);
  }
  WriterStep-Inv first s t (WriterStep.refuses r x e) v = record {
    shared = v.shared;
    fits = tt;
    on_disk = rw e at v.on_disk;
    in_chain = rw e at v.in_chain;
    given = (rw e at v.given) ∙ ap (λ l. l ++ []) (sym (made-append s.replies _ ∙ append-nil _));
    accounted =
        (rw e at v.accounted)
        ∙ sym (append_assoc (answered s.replies) (r ∷ []) _)
        ∙ ap (λ l. l ++ queued s.app.write_queue)
            (sym (answered-append s.replies ((r, err x) ∷ [])));
    over = tt;
    carried = All-append Carries s.replies _ v.carried (tt, tt);
  }
