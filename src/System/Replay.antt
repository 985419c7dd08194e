-- ===== src/System/Replay.antt =====
-- A client of storage-core that follows the live feed of storage-core/src/ws.cpp and asks
-- storage-core/src/server.cpp for what it has lost: it ends with the chain.
use mathlib.Core.List.{append_assoc}
use iot_devices_ledger_audit.Prelude.{
  ℕ, ◌+◌, ◌-◌, ◌≤◌, All, All-left, All-right, All-map, All-both, none, ◌^◌, ◌<◌, ◌≡◌, sym, ap,
  subst, ◌∙◌, false, List, [], ◌++◌, some, ok, length, length-append, arith,
}
use iot_devices_ledger_audit.Prelude.Bytes.{Bytes}
use iot_devices_ledger_audit.Json.{Library, Laws, FeedLaws}
use iot_devices_ledger_audit.Block.{Block}
use iot_devices_ledger_audit.Broadcast.{
  Broadcaster, Subscription, Item, lock, no_subscribers, subscribe,
}
use iot_devices_ledger_audit.Writer.Request
use iot_devices_ledger_audit.Feed.CatchUp.{
  catch_up, catch_up-Gaps, Numbered, Numbered-lt, Numbered-left, Numbered-right,
}
use iot_devices_ledger_audit.Feed.Reader.{send_all, read_feed, IsSendable, read_feed-send_all}
use iot_devices_ledger_audit.Broadcast.Gaps.{Gaps, Gaps-All}
use iot_devices_ledger_audit.System.Defs.{System, Steps, Begins, subscribes, later}
use iot_devices_ledger_audit.System.Invariant.{untold}
use iot_devices_ledger_audit.System.Safety.{reachable-Inv, snapshots_grow}
use iot_devices_ledger_audit.System.Handed.{handed, subscribed, Steps-append, Steps-Watched}
use iot_devices_ledger_audit.System.Placed.{Steps-Placed, Dumps, told-Dumps}

regroup :
    {A : Type 0} (first before published rest left more : List A)
    → (first ++ ((before ++ (published ++ rest)) ++ left)) ++ more
      ≡ (first ++ before) ++ (published ++ (rest ++ (left ++ more)))
regroup first before published rest left more = simp append_assoc

unpack :
    {A : Type 0} (before got lost buffer rest : List A)
    → before ++ ((got ++ (lost ++ buffer)) ++ rest) ≡ before ++ (got ++ (lost ++ (buffer ++ rest)))
unpack before got lost buffer rest = simp append_assoc

module _ (lib : Library) where
  open lib use {Json, dump}

  module _ (s : System Json) (b : Begins lib s) (v : Request.Inv lib s.app s.log)
      (f : s.log.failed ≡ false) (quiet : s.app.broadcaster ≡ some no_subscribers) (t : System Json)
      (h : Broadcaster (Block Json)) (capacity : ℕ) (p : Steps lib s t)
      (at : t.app.broadcaster ≡ some h) (room : 0 < capacity) where
    abbrev joined : System Json
    joined = subscribed lib t h capacity

    -- What `items` and the subscription are to the chain that a reader sees in `w`.
    record Followed (u w : System Json) (items : List (Item (Block Json)))
        (sub : Subscription (Block Json)) : Type 0 where
      published : List (Block Json)
      rest : List (Block Json)
      missed : List (Block Json)
      after : List (Block Json)
      told_is : u.told ≡ t.told ++ (published ++ rest)
      chain_is : w.app.chain.blocks ≡ (s.app.chain.blocks ++ t.told) ++ (published ++ after)
      numbered : Numbered (length (s.app.chain.blocks ++ t.told)) published
      gaps : Gaps published items (missed ++ sub.buffer)
      counted : length missed ≡ sub.lagged
      up_to_date : sub.closed ≡ false → rest ≡ []

    module _ (u w : System Json) (q : Steps lib joined u) (g : Broadcaster (Block Json))
        (sub : Subscription (Block Json)) (r : Steps lib u w) (k : u.app.broadcaster ≡ some g)
        (l : lock g.cells (subscribe h capacity).0 ≡ some sub)
        (fits : length w.app.chain.blocks < 2 ^ 64) where
      -- What the client was handed.
      abbrev items : List (Item (Block Json))
      items = handed lib (subscribe h capacity).0 joined u q

      so_far : Steps lib s u
      so_far = Steps-append lib s joined u (later p (subscribes h capacity at room)) q

      told_fits : length u.told < 2 ^ 64
      told_fits =
          let i = reachable-Inv lib s u b v f so_far in
          let (more, grown) = snapshots_grow lib u w r in
          omega (
            arith,
            fits,
            ap length grown,
            length-append u.app.chain.blocks more,
            ap length i.in_chain,
            length-append s.app.chain.blocks (u.told ++ untold u.phase),
            length-append u.told (untold u.phase),
          )

      client-Followed : Followed u w items sub
      client-Followed =
          let i = reachable-Inv lib s u b v f so_far in
          let first = s.app.chain.blocks in
          let (more, grown) = snapshots_grow lib u w r in
          let watched = Steps-Watched lib s b v f quiet t h capacity p at room u q told_fits in
          let fed = (watched.fed g k).fed sub l in
          let told_is : u.told ≡ t.told ++ (fed.published ++ fed.rest) =
            watched.told_is ∙ ap (λ x. t.told ++ x) fed.split in
          record {
            published = fed.published;
            rest = fed.rest;
            missed = fed.missed;
            after = fed.rest ++ (untold u.phase ++ more);
            told_is = told_is;
            chain_is =
                grown
                ∙ ap (λ x. x ++ more)
                    (i.in_chain ∙ ap (λ x. first ++ (x ++ untold u.phase)) told_is)
                ∙ regroup first t.told fed.published fed.rest (untold u.phase) more;
            numbered =
                subst (λ n. Numbered n fed.published) (sym (length-append first t.told))
                  (Numbered-left (length first + length t.told) fed.published fed.rest (
                    Numbered-right (length first) t.told (fed.published ++ fed.rest) (
                      subst (Numbered (length first)) told_is
                        (Steps-Placed lib s u b v f so_far).told)));
            gaps = fed.gaps;
            counted = fed.counted;
            up_to_date = fed.up_to_date;
          }

      handed_catch_up :
          (got : List (Block Json)) × (lost : List (Block Json)) × (rest : List (Block Json))
          × (catch_up w.app.chain.blocks items ≡ ok got)
          × (u.told ≡ t.told ++ (got ++ (lost ++ (sub.buffer ++ rest))))
          × (length lost ≡ sub.lagged)
          × (sub.closed ≡ false → rest ≡ [])
      handed_catch_up =
          let c = client-Followed in
          let (got, reads, e) =
            catch_up-Gaps items (s.app.chain.blocks ++ t.told) c.published c.after
              (c.missed ++ sub.buffer) c.numbered c.gaps
              (omega (
                arith,
                fits,
                ap length c.chain_is,
                length-append (s.app.chain.blocks ++ t.told) (c.published ++ c.after),
                length-append c.published c.after,
              )) in
          (
            got,
            c.missed,
            c.rest,
            ap (λ x. catch_up x items) c.chain_is ∙ reads,
            c.told_is
                ∙ ap (λ x. t.told ++ (x ++ c.rest)) e
                ∙ unpack t.told got c.missed sub.buffer c.rest,
            c.counted,
            c.up_to_date,
          )

      module _ (laws : Laws lib) (more : FeedLaws lib)
          (exact : All (λ (x : Block Json). laws.IsExact x.event.metadata) u.told) where
        abbrev Placed : Block Json → Type 0
        Placed x = x.index < 2 ^ 64

        abbrev Exact : Block Json → Type 0
        Exact x = laws.IsExact x.event.metadata

        abbrev Fits : Block Json → Type 0
        Fits x = Placed x × Exact x

        -- What holds of all that was told holds of what was published to the client.
        here :
            (P : Block Json → Type 0) (c : Followed u w items sub)
            → All P u.told
            → All P c.published
        here P c a =
            All-left P c.published c.rest
              (All-right P t.told (c.published ++ c.rest) (subst (All P) c.told_is a))

        items-IsSendable : All (IsSendable lib laws more) items
        items-IsSendable =
            let c = client-Followed in
            let sized : length (s.app.chain.blocks ++ t.told) + length c.published < 2 ^ 64 =
              omega (
                arith,
                fits,
                ap length c.chain_is,
                length-append (s.app.chain.blocks ++ t.told) (c.published ++ c.after),
                length-append c.published c.after,
              ) in
            let placed =
              Numbered-lt (length (s.app.chain.blocks ++ t.told)) (2 ^ 64) c.published (omega arith)
                c.numbered in
            let good =
              All-both (Dumps lib) Fits c.published
                (here (Dumps lib) c (told-Dumps lib s u b v f so_far))
                (All-both Placed Exact c.published placed (here Exact c exact)) in
            All-map
              (λ (i : Item (Block Json)).
                (Dumps lib i.block × Fits i.block) × (i.lagged ≤ 2 ^ 64 - 1))
              (IsSendable lib laws more)
              (λ i x. record {
                text = x.0.0.0;
                dumps = x.0.0.1;
                fits = x.0.1.0;
                exact = x.0.1.1;
                countable = omega (arith, x.1);
              })
              items
              (Gaps-All (λ x. Dumps lib x × Fits x) (2 ^ 64 - 1) c.published items
                (c.missed ++ sub.buffer) (omega arith) good c.gaps)

        -- From a state that `run` has made, with a sound chain, a good log and no subscriber, and
        -- whatever the threads do: a client has subscribed in `t`, its subscription is held in `u`,
        -- and a reader sees the chain in `w`, in `u` or later, with fewer than 2^64 blocks. If the
        -- metadata of what was published is such that a dump keeps it, the sends for the items that the
        -- client was handed do not throw, and reading the frames gives the items back. If for each
        -- item with a lag it asks for the range of that many blocks before the item's block, each
        -- request succeeds. What it then has is what was published since it subscribed, in order, with
        -- none left out and none twice, but for the end: as many blocks as the lag of the
        -- subscription says, then its buffer, then what came after it was closed.
        pub client_replays :
            (frames : List Bytes) × (got : List (Block Json)) × (lost : List (Block Json))
            × (rest : List (Block Json)) × (send_all lib items [] ≡ (none, frames))
            × (read_feed lib 0 frames ≡ ok items)
            × (catch_up w.app.chain.blocks items ≡ ok got)
            × (u.told ≡ t.told ++ (got ++ (lost ++ (sub.buffer ++ rest))))
            × (length lost ≡ sub.lagged)
            × (sub.closed ≡ false → rest ≡ [])
        client_replays =
            let (frames, sends, reads) =
              read_feed-send_all lib laws more items [] items-IsSendable in
            let (got, lost, rest, c, e, n, o) = handed_catch_up in
            (frames, got, lost, rest, sends, reads, c, e, n, o)
