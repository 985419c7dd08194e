-- ===== src/Feed/Working.antt =====
-- The moves of the pump of storage-core/src/ws.cpp, and what any move keeps.
use iot_devices_ledger_audit.Prelude.{
  ◌<◌, ◌≡◌, refl, ap, inl, inr, Bool, true, false, List, [], ◌∷◌, Option, none, some, length,
  Bool-cases, arith,
}
use iot_devices_ledger_audit.Prelude.Bytes.{Bytes}
use iot_devices_ledger_audit.Json.{Library}
use iot_devices_ledger_audit.Block.{Block}
use iot_devices_ledger_audit.Broadcast.Subscriber.{Subscription, Item, next, close, take_item}
use iot_devices_ledger_audit.Feed.Frames.{send_item}
use iot_devices_ledger_audit.Feed.Waiting.{
  Place, awake, asleep, holds, returned, threw, Pump, Move, pushes, notifies, closes, notifies_all,
  looks, sends, stirs, wake, notify_one, notify_all, after_next, look, after_send, send, step, run,
}
use iot_devices_ledger_audit.Feed.Rested.{
  Inv, effort, Kept, same-Kept, wake-Kept, notify_one-Kept, notify_all-Kept, pushes-Kept,
  closes-Kept,
}

module _ {Json : Type 0} where
  next_end :
      (s : Subscription (Block Json)) → s.closed ≡ true → s.buffer ≡ [] → next s ≡ some (none, s)
  unfolding next take_item
  next_end s c e = ground arith

  next_waits : (s : Subscription (Block Json)) → s.closed ≡ false → s.buffer ≡ [] → next s ≡ none
  unfolding next
  next_waits s o e = ground arith

  next_gives :
      (s : Subscription (Block Json)) (b : Block Json) (rest : List (Block Json))
      → s.buffer ≡ b ∷ rest
      → next s
        ≡ some
            (some (record { block = b; lagged = s.lagged }), record s { buffer = rest; lagged = 0 })
  unfolding next take_item
  next_gives s b rest e = ground arith

  -- A move of the pump itself: the effort falls on a closed subscription.
  abbrev pub Works : Pump Json → Pump Json → Type 0
  Works p p' = Kept p p' × (p.sub.closed ≡ true → effort p' < effort p)

  pub look-Works : (p : Pump Json) → p.place ≡ awake → Inv p → Works p (after_next p (next p.sub))
  unfolding after_next
  look-Works p at v = go p.sub.buffer refl
    where
      go : (l : List (Block Json)) → p.sub.buffer ≡ l → Works p (after_next p (next p.sub))
      go [] e = elim (Bool-cases p.sub.closed) [
        | inl c ↦
            rw (next_end p.sub c e, after_next)
              (
                record {
                  inv = record { room = v.room; rested = tt };
                  closed = λ x. x;
                  less = λ x. omega arith;
                },
                λ x. rw at (omega arith),
              )
        | inr o ↦
            rw (next_waits p.sub o e, after_next)
              (
                record {
                  inv = record { room = v.room; rested = inr (o, inl e) };
                  closed = λ x. x;
                  less = λ x. absurd (cc (x, o));
                },
                λ x. absurd (cc (x, o)),
              )
      ]
      go (b ∷ rest) e =
          rw (next_gives p.sub b rest e, after_next)
            (
              record {
                inv = record { room = v.room; rested = tt };
                closed = λ x. x;
                less = λ x. rw at (omega (arith, ap length e));
              },
              λ x. rw at (omega (arith, ap length e)),
            )

  look-Kept : (p : Pump Json) (pl : Place Json) → p.place ≡ pl → Inv p → Kept p (look p pl)
  unfolding look
  look-Kept p awake e v = (look-Works p e v).0
  look-Kept p asleep e v = same-Kept p v
  look-Kept p (holds i) e v = same-Kept p v
  look-Kept p returned e v = same-Kept p v
  look-Kept p (threw m) e v = same-Kept p v

module _ (lib : Library) where
  open lib use {Json}

  after_send-Works :
      (p : Pump Json) (i : Item (Block Json)) (out : Option Bytes × List Bytes)
      → p.place ≡ holds i
      → Inv p
      → Works p (after_send lib p out)
  unfolding after_send
  after_send-Works p i (none, sent) e v = (
    record {
      inv = record { room = v.room; rested = tt };
      closed = λ c. c;
      less = λ c. rw e (omega arith);
    },
    λ c. rw e (omega arith),
  )
  after_send-Works p i (some m, sent) e v = (
    record {
      inv = record { room = v.room; rested = tt };
      closed = λ c. c;
      less = λ c. omega arith;
    },
    λ c. rw e (omega arith),
  )

  pub send-Works :
      (p : Pump Json) (alive : Bool) (i : Item (Block Json))
      → p.place ≡ holds i
      → Inv p
      → Works p (send lib p alive (holds i))
  unfolding send
  send-Works p true i e v = after_send-Works p i (send_item lib i p.sent) e v
  send-Works p false i e v = (
    record {
      inv = record { room = v.room; rested = tt };
      closed = λ c. c;
      less = λ c. omega arith;
    },
    λ c. rw e (omega arith),
  )

  send-Kept :
      (p : Pump Json) (alive : Bool) (pl : Place Json)
      → p.place ≡ pl
      → Inv p
      → Kept p (send lib p alive pl)
  unfolding send
  send-Kept p alive (holds i) e v = (send-Works p alive i e v).0
  send-Kept p true awake e v = same-Kept p v
  send-Kept p true asleep e v = same-Kept p v
  send-Kept p true returned e v = same-Kept p v
  send-Kept p true (threw m) e v = same-Kept p v
  send-Kept p false awake e v = same-Kept p v
  send-Kept p false asleep e v = same-Kept p v
  send-Kept p false returned e v = same-Kept p v
  send-Kept p false (threw m) e v = same-Kept p v

  step-Kept :
      (p : Pump Json) (x : Move Json)
      → Inv p
      → (p' : Pump Json) × (step lib p x ≡ some p') × Kept p p'
  unfolding step
  step-Kept p (pushes b) v = pushes-Kept p b v
  step-Kept p notifies v = (notify_one p p.owed_one, refl, notify_one-Kept p p.owed_one v)
  step-Kept p closes v = (record p { sub = close p.sub; owed_all = true }, refl, closes-Kept p v)
  step-Kept p notifies_all v = (notify_all p p.owed_all, refl, notify_all-Kept p p.owed_all v)
  step-Kept p looks v = (look p p.place, refl, look-Kept p p.place refl v)
  step-Kept p (sends alive) v = (send lib p alive p.place, refl, send-Kept p alive p.place refl v)
  step-Kept p stirs v = (wake p p.place, refl, wake-Kept p p.place refl v)

  pub run-Kept :
      (p : Pump Json) (xs : List (Move Json))
      → Inv p
      → (p' : Pump Json) × (run lib p xs ≡ some p') × Kept p p'
  unfolding run
  run-Kept p [] v = (p, refl, same-Kept p v)
  run-Kept p (x ∷ xs) v =
      let (p1, e, k) = step-Kept p x v in
      let (p2, r, l) = run-Kept p1 xs k.inv in
      (
        p2,
        rw (e, run) r,
        record {
          inv = l.inv;
          closed = λ c. l.closed (k.closed c);
          less = λ c. omega (arith, k.less c, l.less (k.closed c));
        },
      )
