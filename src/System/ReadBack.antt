-- ===== src/System/ReadBack.antt =====
-- A block that POST /events of storage-core/src/server.cpp has answered with, in what GET /blocks
-- answers later.
use mathlib.Core.List.{append_assoc}
use iot_devices_ledger_audit.Prelude.{
  ℕ, ◌+◌, ◌-◌, ◌^◌, ◌<◌, ◌≡◌, refl, sym, ap, subst, ◌∙◌, false, List, [], ◌∷◌, ◌++◌, none, some,
  Result, ok, length, length-append, map, All, All-right, All-left, arith,
}
use iot_devices_ledger_audit.Prelude.Bytes.{Bytes, bytes, is_ascii}
use iot_devices_ledger_audit.Prelude.Decimal.{to_string}
use iot_devices_ledger_audit.Json.{Library, FeedLaws}
use iot_devices_ledger_audit.Error.{Exception}
use iot_devices_ledger_audit.Block.{Block, block_to_json}
use iot_devices_ledger_audit.Writer.{WriteRequest}
use iot_devices_ledger_audit.Writer.Request
use iot_devices_ledger_audit.Server.{Request, json_response, select, finish_event, get_blocks}
use iot_devices_ledger_audit.Server.Params.{parse_index-to_string}
use iot_devices_ledger_audit.Feed.CatchUp.{Numbered, Numbered-right, Numbered-left, select_middle}
use iot_devices_ledger_audit.System.Defs.{System, Steps, Begins}
use iot_devices_ledger_audit.System.Invariant.{untold, unanswered, made, made-append, Carries}
use iot_devices_ledger_audit.System.Safety.{reachable-Inv, snapshots_grow}
use iot_devices_ledger_audit.System.Placed.{Steps-Placed, Dumps, told-Dumps}

regroup :
    {A : Type 0} (first before after left more late : List A) (b : A)
    → (first ++ (((before ++ b ∷ after) ++ left) ++ more)) ++ late
      ≡ (first ++ before) ++ (b ∷ [] ++ (after ++ (left ++ (more ++ late))))
regroup first before after left more late b = simp append_assoc

module _ (lib : Library) where
  open lib use {Json, of_uint, of_list, of_fields, dump}

  module _ (s : System Json) (b : Begins lib s) (v : Request.Inv lib s.app s.log)
      (f : s.log.failed ≡ false) (u w : System Json) (p : Steps lib s u) (q : Steps lib u w)
      (r : WriteRequest Json) (x : Block Json)
      (before after : List (WriteRequest Json × Result Exception (Block Json)))
      (answered : u.replies ≡ before ++ (r, ok x) ∷ after)
      (fits : length w.app.chain.blocks < 2 ^ 64) where
    -- What stands before the block in the chain, and behind it.
    front : List (Block Json)
    front = s.app.chain.blocks ++ made before

    told_is : u.told ≡ (made before ++ x ∷ made after) ++ unanswered u.phase
    told_is =
        let i = reachable-Inv lib s u b v f p in
        i.given
        ∙ ap (λ l. l ++ unanswered u.phase)
            (ap made answered ∙ made-append before ((r, ok x) ∷ after))

    chain_is : (back : List (Block Json)) × (w.app.chain.blocks ≡ front ++ (x ∷ [] ++ back))
    unfolding front
    chain_is =
        let i = reachable-Inv lib s u b v f p in
        let (late, grown) = snapshots_grow lib u w q in
        (
          made after ++ (unanswered u.phase ++ (untold u.phase ++ late)),
          grown
              ∙ ap (λ l. l ++ late)
                  (i.in_chain ∙ ap (λ l. s.app.chain.blocks ++ (l ++ untold u.phase)) told_is)
              ∙ regroup s.app.chain.blocks (made before) (made after) (unanswered u.phase)
                  (untold u.phase) late x,
        )

    index_is : x.index ≡ length front
    unfolding front
    index_is =
        let first = s.app.chain.blocks in
        let told = subst (Numbered (length first)) told_is (Steps-Placed lib s u b v f p).told in
        let here = Numbered-right (length first) (made before) (x ∷ made after) (
          Numbered-left (length first) (made before ++ x ∷ made after) (unanswered u.phase) told) in
        here.0 ∙ sym (length-append first (made before))

    front_fits : length front < 2 ^ 64
    front_fits =
        let (back, e) = chain_is in omega (arith, fits, ap length e, length-append front (x ∷ back))

    select_own : select w.app.chain.blocks x.index x.index ≡ ok (x ∷ [], length w.app.chain.blocks)
    select_own =
        let (back, e) = chain_is in
        let one : length front + 1 - 1 ≡ length front = omega arith in
        subst (λ l. select l x.index x.index ≡ ok (x ∷ [], length l)) (sym e)
          (subst
            (λ n.
              select (front ++ (x ∷ [] ++ back)) n n
              ≡ ok (x ∷ [], length (front ++ (x ∷ [] ++ back))))
            (sym index_is)
            (subst
              (λ n.
                select (front ++ (x ∷ [] ++ back)) (length front) n
                ≡ ok (x ∷ [], length (front ++ (x ∷ [] ++ back))))
              one
              (select_middle front (x ∷ []) back (omega arith)
                (omega (arith, fits, ap length e, length-append front (x ∷ back))))))

    -- The JSON that GET /blocks answers with for this one block.
    abbrev page : ℕ → Json
    page n = of_fields (
        (bytes "blocks", of_list (map (block_to_json lib) (x ∷ [])))
        ∷ (bytes "chain_length", of_uint n)
        ∷ [])

    dumps : (text : Bytes) × (dump (block_to_json lib x) ≡ ok text)
    dumps =
        (All-right (Dumps lib) (made before) (x ∷ made after) (
          All-left (Dumps lib) (made before ++ x ∷ made after) (unanswered u.phase)
            (subst (All (Dumps lib)) told_is (told-Dumps lib s u b v f p)))).0

    -- From a state that `run` has made, with a sound chain and a good log, and whatever the threads
    -- do: a request has been answered with a block by `u`, and in `w`, which is `u` or later, the
    -- chain has fewer than 2^64 blocks. The block carries the event of the request, and the handler
    -- of the POST answers with its JSON and a 201. If a GET /blocks in `w` has the block's index for
    -- both ends of its range, its handler answers with exactly this block and the length of the chain,
    -- and sets no status of its own.
    pub read_your_write :
        (more : FeedLaws lib) (req : Request)
        → req.param (bytes "from") ≡ some (to_string x.index)
        → req.param (bytes "to") ≡ some (to_string x.index)
        → (x.event ≡ r.event)
          × ((text : Bytes) × (finish_event lib (ok x) ≡ ok (json_response (some 201) text))
              × (dump (block_to_json lib x) ≡ ok text))
          × ((body : Bytes) × (get_blocks lib w.app req ≡ ok (json_response none body))
              × (dump (page (length w.app.chain.blocks)) ≡ ok body))
    unfolding finish_event get_blocks
    read_your_write more req from to =
        let (text, d) = dumps in
        let small : x.index < 2 ^ 64 = omega (arith, index_is, front_fits) in
        let (body, e) = more.dump_plain (page (length w.app.chain.blocks)) (
          more.plain_fields _ (
            (unfold bytes is_ascii in refl, more.plain_list _ (more.plain_dump _ text d, tt)),
            ((unfold bytes is_ascii in refl, more.plain_uint (length w.app.chain.blocks) fits), tt),
          )) in
        (
          (All-right Carries before ((r, ok x) ∷ after)
              (subst (All Carries) answered (reachable-Inv lib s u b v f p).carried)).0,
          (text, rw d refl, d),
          (
            body,
            rw
                (
                  parse_index-to_string req (bytes "from") 0 x.index small from,
                  parse_index-to_string req (bytes "to") (2 ^ 64 - 1) x.index small to,
                  select_own,
                )
                (rw e refl),
            e,
          ),
        )
