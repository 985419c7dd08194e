-- ===== src/Feed/Wakeups.antt =====
-- The pump of storage-core/src/ws.cpp is woken when there is something for it, and its thread can be
-- joined once the subscription is closed.
use iot_devices_ledger_audit.Prelude.{
  ℕ, ◌+◌, ◌*◌, ◌≤◌, ◌<◌, ◌≡◌, refl, sym, subst, ◌∙◌, ◌⊎◌, inl, inr, Bool, true, false, List, [],
  some, length, some_inj, arith,
}
use iot_devices_ledger_audit.Json.{Library}
use iot_devices_ledger_audit.Block.{Block}
use iot_devices_ledger_audit.Broadcast.Subscriber.{Subscription, new, next}
use iot_devices_ledger_audit.Feed.Waiting.{
  Place, awake, asleep, holds, returned, threw, Pump, Move, notifies_all, looks, sends, begin, wake,
  notify_all, after_next, look, send, step, run,
}
use iot_devices_ledger_audit.Feed.Rested.{Rested, Inv, left, effort}
use iot_devices_ledger_audit.Feed.Working.{look-Works, send-Works, run-Kept}

module _ (lib : Library) where
  open lib use {Json}

  begin-Inv : (capacity : ℕ) → 0 < capacity → Inv {Json = Json} (begin capacity)
  unfolding new
  begin-Inv capacity h = record { room = h; rested = tt }

  reached-Inv :
      (capacity : ℕ) (xs : List (Move Json)) (p : Pump Json)
      → 0 < capacity
      → run lib (begin capacity) xs ≡ some p
      → Inv p
  reached-Inv capacity xs p h e =
      let (q, r, k) = run-Kept lib (begin capacity) xs (begin-Inv capacity h) in
      subst Inv (some_inj (sym r ∙ e)) k.inv

  quiet :
      (pl : Place Json) (s : Subscription (Block Json))
      → pl ≡ asleep
      → Rested pl s 0 false
      → (s.closed ≡ false) × (s.buffer ≡ [])
  quiet asleep s e (inl (c, x)) = absurd (cc x)
  quiet asleep s e (inr (o, inl x)) = (o, x)
  quiet asleep s e (inr (o, inr x)) = absurd (omega arith)
  quiet awake s e r = absurd (cc e)
  quiet (holds i) s e r = absurd (cc e)
  quiet returned s e r = absurd (cc e)
  quiet (threw m) s e r = absurd (cc e)

  -- No wake-up of a pump is lost: after any pushes, the closing, notifications sent as late as it may
  -- be, spurious wake-ups and moves of the pump, if it sleeps and no notification is owed, then
  -- its subscription is open and empty.
  pub pump_wakes :
      (capacity : ℕ) (xs : List (Move Json)) (p : Pump Json)
      → 0 < capacity
      → run lib (begin capacity) xs ≡ some p
      → p.place ≡ asleep
      → p.owed_one ≡ 0
      → p.owed_all ≡ false
      → (p.sub.closed ≡ false) × (p.sub.buffer ≡ [])
  pump_wakes capacity xs p h e at one all = quiet p.place p.sub at (
      subst (λ a. Rested p.place p.sub 0 a) all
        (subst (λ n. Rested p.place p.sub n p.owed_all) one (reached-Inv capacity xs p h e).rested))

  abbrev pub Finished : Place Json → Type 0
  Finished returned = Unit {0}
  Finished (threw m) = Unit {0}
  Finished awake = ⊥
  Finished asleep = ⊥
  Finished (holds i) = ⊥

  -- What comes next for the pump; `alive` is what it finds when it locks the weak pointer.
  abbrev pub next_move : Bool → Place Json → Move Json
  next_move alive awake = looks
  next_move alive asleep = notifies_all
  next_move alive (holds i) = sends alive
  next_move alive returned = looks
  next_move alive (threw m) = looks

  all_owed :
      (p : Pump Json)
      → Rested asleep p.sub p.owed_one p.owed_all
      → p.sub.closed ≡ true
      → p.owed_all ≡ true
  all_owed p (inl (_, a)) c = a
  all_owed p (inr (o, _)) c = absurd (cc (c, o))

  abbrev pub Falls : Pump Json → Move Json → Type 0
  Falls p x = (p' : Pump Json) × (step lib p x ≡ some p') × (effort p' < effort p)

  falls :
      (p : Pump Json) (alive : Bool) (pl : Place Json)
      → p.place ≡ pl
      → Inv p
      → p.sub.closed ≡ true
      → Finished pl ⊎ Falls p (next_move alive pl)
  unfolding step look notify_all wake
  falls p alive awake e v c = inr (after_next p (next p.sub), rw e refl, (look-Works p e v).1 c)
  falls p alive (holds i) e v c =
      inr (send lib p alive (holds i), rw e refl, (send-Works lib p alive i e v).1 c)
  falls p alive asleep e v c =
      let all = all_owed p (rw e at v.rested) c in
      inr (record p { owed_all = false; place = awake }, rw (all, e) refl, rw e (omega arith))
  falls p alive returned e v c = inl tt
  falls p alive (threw m) e v c = inl tt

  effort_bound : (pl : Place Json) (n : ℕ) → left pl n ≤ 2 * n + 2
  effort_bound awake n = omega arith
  effort_bound asleep n = omega arith
  effort_bound (holds i) n = omega arith
  effort_bound returned n = omega arith
  effort_bound (threw m) n = omega arith

  -- Once its subscription is closed, a pump can be joined: until it has returned, or an exception has
  -- left its thread, its next move or the notification that is owed to it is open and takes from a
  -- number that is at most twice the blocks that wait and two, whatever the socket does; and no
  -- moves of any thread add to that number, open the subscription again or are undefined.
  pub pump_joins :
      (capacity : ℕ) (xs : List (Move Json)) (p : Pump Json)
      → 0 < capacity
      → run lib (begin capacity) xs ≡ some p
      → p.sub.closed ≡ true
      → (effort p ≤ 2 * length p.sub.buffer + 2)
        × ((alive : Bool) → Finished p.place ⊎ Falls p (next_move alive p.place))
        × ((ys : List (Move Json))
            → (p' : Pump Json) × (run lib p ys ≡ some p')
              × (p'.sub.closed ≡ true)
              × (effort p' ≤ effort p))
  pump_joins capacity xs p h e c =
      let v = reached-Inv capacity xs p h e in
      (
        effort_bound p.place (length p.sub.buffer),
        λ alive. falls p alive p.place refl v c,
        λ ys. let (p', r, k) = run-Kept lib p ys v in (p', r, k.closed c, k.less c),
      )
