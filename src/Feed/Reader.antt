-- ===== src/Feed/Reader.antt =====
-- The wire format of storage-core/include/ws.hpp: what the pump of storage-core/src/ws.cpp sends for
-- the items that it is handed, and a reader that tells lag notices from blocks by their `type`.
use mathlib.Core.List.{append_assoc, append-nil}
use iot_devices_ledger_audit.Prelude.{
  ℕ, zero, suc, ◌^◌, ◌<◌, ◌≡◌, refl, sym, ap, ◌∙◌, ◌⊎◌, inl, inr, List, [], ◌∷◌, ◌++◌, Option, none,
  some, Result, ok, err, ◌>>=◌, All, arith,
}
use iot_devices_ledger_audit.Prelude.Bytes.{Bytes, is_ascii, bytes, lookup, str_eq}
use iot_devices_ledger_audit.Json.{Library, Laws, FeedLaws}
use iot_devices_ledger_audit.Block.{Block, block_to_json, block_from_json}
use iot_devices_ledger_audit.Block.Encoding.{block_to_json-IsExact, block_from_json-to_json}
use iot_devices_ledger_audit.Broadcast.{Item}
use iot_devices_ledger_audit.Feed.Frames.{lag_frame, notice, send_item}
use iot_devices_ledger_audit.Feed.Pump.{frames_of, send_item-frames_of}

module _ (lib : Library) where
  open lib use {Json, of_uint, of_str, of_fields, dump, parse, at, get_uint}

  -- The sends for some items, one after the other, until one throws.
  unfoldable pub send_all : List (Item (Block Json)) → List Bytes → Option Bytes × List Bytes
  send_all [] sent = (none, sent)
  send_all (i ∷ is) sent =
      let (thrown, sent') = send_item lib i sent in
      elim thrown [ some message ↦ (some message, sent') | none ↦ send_all is sent' ]

  -- A lag notice with its count, or a block.
  unfoldable pub read_frame : Bytes → Result Bytes (ℕ ⊎ Block Json)
  read_frame text = parse text >>= λ j. elim (at j (bytes "type")) [
    | ok kind ↦ at j (bytes "dropped") >>= λ d. get_uint d >>= λ n. ok (inl n)
    | err m ↦ block_from_json lib j >>= λ b. ok (inr b)
  ]

  -- The items behind a notice of `lagged`.
  unfoldable pub read_feed : ℕ → List Bytes → Result Bytes (List (Item (Block Json)))
  read_feed lagged [] = ok []
  read_feed lagged (text ∷ frames) = elim (read_frame text) [
    | err m ↦ err m
    | ok frame ↦ elim frame [
      | inl n ↦ read_feed n frames
      | inr b ↦ read_feed 0 frames >>= λ is. ok (record { block = b; lagged = lagged } ∷ is)
    ]
  ]

  module _ (laws : Laws lib) (more : FeedLaws lib) where
    open laws use {IsExact}

    -- What an item needs to be sent and read.
    pub record IsSendable (i : Item (Block Json)) : Type 0 where
      pub text : Bytes
      pub dumps : dump (block_to_json lib i.block) ≡ ok text
      pub fits : i.block.index < 2 ^ 64
      pub exact : IsExact i.block.event.metadata
      pub countable : i.lagged < 2 ^ 64

    -- A block has no field `type`.
    at_type : (b : Block Json) → (m : Bytes) × (at (block_to_json lib b) (bytes "type") ≡ err m)
    unfolding block_to_json lookup str_eq bytes
    at_type b = more.absent _ (bytes "type") refl

    read_frame-block :
        (i : Item (Block Json)) (s : IsSendable i) → read_frame s.text ≡ ok (inr i.block)
    unfolding read_frame
    read_frame-block i s =
        let (m, e) = at_type i.block in
        rw
          (laws.parse_dump _ s.text (block_to_json-IsExact lib laws i.block s.fits s.exact) s.dumps)
          (rw e (rw (block_from_json-to_json lib laws i.block s.fits) refl))

    lag_frame-total : (n : ℕ) → n < 2 ^ 64 → (text : Bytes) × (lag_frame lib n ≡ ok text)
    unfolding lag_frame bytes
    lag_frame-total n h = more.dump_plain _ (
        more.plain_fields _ (
          (unfold bytes is_ascii in refl, more.plain_str _ (omega arith)),
          ((unfold bytes is_ascii in refl, more.plain_uint n h), tt),
        ))

    read_frame-lag :
        (n : ℕ) (text : Bytes)
        → n < 2 ^ 64
        → lag_frame lib n ≡ ok text
        → read_frame text ≡ ok (inl n)
    unfolding read_frame lag_frame lookup str_eq bytes
    read_frame-lag n text h d =
        rw
          (
            laws.parse_dump _ text
                (laws.exact_fields _ (laws.exact_str _, (laws.exact_uint n h, tt))) d,
            laws.at_fields _ (bytes "type") _ refl,
            laws.at_fields _ (bytes "dropped") _ refl,
            laws.get_uint_of n h,
          )
          refl

    -- The frames of one item, and what a reader makes of them.
    abbrev Readable : Item (Block Json) → Type 0
    Readable i =
        (frames : List Bytes) × (frames_of lib i.lagged i.block ≡ ok frames)
        × ((rest : List Bytes)
            → read_feed 0 (frames ++ rest) ≡ (read_feed 0 rest >>= λ is. ok (i ∷ is)))

    one_item :
        (b : Block Json) (n : ℕ)
        → IsSendable (record { block = b; lagged = n })
        → Readable (record { block = b; lagged = n })
    unfolding frames_of notice read_feed
    one_item b zero s =
        (s.text ∷ [], rw s.dumps refl, λ rest. rw (read_frame-block _ s, read_feed) refl)
    one_item b (suc n) s =
        let (text, d) = lag_frame-total (suc n) s.countable in
        (
          text ∷ s.text ∷ [],
          rw (d, s.dumps) (ground arith),
          λ rest.
              rw (read_frame-lag (suc n) text s.countable d, read_feed)
                (rw (read_frame-block _ s, read_feed) refl),
        )

    -- The pump sends every item without a throw, and the reader has the items back, each lag with
    -- the block behind it.
    pub read_feed-send_all :
        (items : List (Item (Block Json))) (sent : List Bytes)
        → All IsSendable items
        → (frames : List Bytes) × (send_all items sent ≡ (none, sent ++ frames))
          × (read_feed 0 frames ≡ ok items)
    unfolding send_all read_feed
    read_feed-send_all [] sent a = ([], ap (λ l. (none, l)) (sym (append-nil sent)), refl)
    read_feed-send_all (i ∷ is) sent a =
        let (frames, f, r) = one_item i.block i.lagged a.0 in
        let (later, e, q) = read_feed-send_all is (sent ++ frames) a.1 in
        let x = send_item-frames_of lib i.lagged i.block sent frames f in
        (
          frames ++ later,
          rw (ap (λ p. p.0) x, send_all)
              (ap (send_all is) (ap (λ p. p.1) x)
                ∙ e
                ∙ ap (λ l. (none, l)) (append_assoc sent frames later)),
          r later ∙ rw q refl,
        )
