-- ===== src/System/Invariant.antt =====
-- What holds between any two steps of the threads of storage-core.
use iot_devices_ledger_audit.Prelude.{
  ◌≡◌, refl, true, ap, List, [], ◌∷◌, ◌++◌, Option, none, some, Result, ok, err, All,
}
use iot_devices_ledger_audit.Json.{Library}
use iot_devices_ledger_audit.Error.{Exception}
use iot_devices_ledger_audit.Block.{Block}
use iot_devices_ledger_audit.Chain.{Chain, latest, push_persisted}
use iot_devices_ledger_audit.Chain.Growth.{IsIntact}
use iot_devices_ledger_audit.Queue.{WriteQueue}
use iot_devices_ledger_audit.Broadcast.{Broadcaster}
use iot_devices_ledger_audit.Writer.{WriteRequest}
use iot_devices_ledger_audit.Writer.Request.{HubSound}
use iot_devices_ledger_audit.System.Defs.{Phase, System}
use iot_devices_ledger_audit.System.OnDisk.{OnDisk}

module _ {Json : Type 0} where
  -- The request that the writer has taken and not answered.
  abbrev pub in_hand : Phase Json → List (WriteRequest Json)
  in_hand Phase.idle = []
  in_hand (Phase.popped r) = r ∷ []
  in_hand (Phase.built r b) = r ∷ []
  in_hand (Phase.persisted r b) = r ∷ []
  in_hand (Phase.pushed r b) = r ∷ []
  in_hand (Phase.published r b) = r ∷ []
  in_hand (Phase.failed r e) = r ∷ []
  in_hand Phase.ended = []

  -- The block that is in the file and not in the chain.
  abbrev pub written : Phase Json → List (Block Json)
  written (Phase.persisted r b) = b ∷ []
  written Phase.idle = []
  written (Phase.popped r) = []
  written (Phase.built r b) = []
  written (Phase.pushed r b) = []
  written (Phase.published r b) = []
  written (Phase.failed r e) = []
  written Phase.ended = []

  -- The block that is in the chain and not published.
  abbrev pub untold : Phase Json → List (Block Json)
  untold (Phase.pushed r b) = b ∷ []
  untold Phase.idle = []
  untold (Phase.popped r) = []
  untold (Phase.built r b) = []
  untold (Phase.persisted r b) = []
  untold (Phase.published r b) = []
  untold (Phase.failed r e) = []
  untold Phase.ended = []

  -- The block that is published and not given to its caller.
  abbrev pub unanswered : Phase Json → List (Block Json)
  unanswered (Phase.published r b) = b ∷ []
  unanswered Phase.idle = []
  unanswered (Phase.popped r) = []
  unanswered (Phase.built r b) = []
  unanswered (Phase.persisted r b) = []
  unanswered (Phase.pushed r b) = []
  unanswered (Phase.failed r e) = []
  unanswered Phase.ended = []

  abbrev pub queued : Option (WriteQueue (WriteRequest Json)) → List (WriteRequest Json)
  queued none = []
  queued (some q) = q.items

  abbrev pub Drained : Option (WriteQueue (WriteRequest Json)) → Type 0
  Drained none = ⊥
  Drained (some q) = (q.closed ≡ true) × (q.items ≡ [])

  -- The writer ends on a queue that is closed and drained.
  abbrev pub Over : Phase Json → Option (WriteQueue (WriteRequest Json)) → Type 0
  Over Phase.ended q = Drained q
  Over Phase.idle q = Unit {0}
  Over (Phase.popped r) q = Unit {0}
  Over (Phase.built r b) q = Unit {0}
  Over (Phase.persisted r b) q = Unit {0}
  Over (Phase.pushed r b) q = Unit {0}
  Over (Phase.published r b) q = Unit {0}
  Over (Phase.failed r e) q = Unit {0}

  -- The requests that were answered, and the blocks that were given out.
  abbrev pub answered :
      List (WriteRequest Json × Result Exception (Block Json)) → List (WriteRequest Json)
  answered [] = []
  answered ((r, x) ∷ rs) = r ∷ answered rs

  abbrev pub made : List (WriteRequest Json × Result Exception (Block Json)) → List (Block Json)
  made [] = []
  made ((r, ok b) ∷ rs) = b ∷ made rs
  made ((r, err e) ∷ rs) = made rs

  -- A block that is given out carries the event of its request.
  abbrev pub Carries : WriteRequest Json × Result Exception (Block Json) → Type 0
  Carries (r, ok b) = b.event ≡ r.event
  Carries (r, err e) = Unit {0}

  pub answered-append :
      (xs ys : List (WriteRequest Json × Result Exception (Block Json)))
      → answered (xs ++ ys) ≡ answered xs ++ answered ys
  answered-append [] ys = refl
  answered-append (x ∷ xs) ys = ap (λ l. x.0 ∷ l) (answered-append xs ys)

  pub made-append :
      (xs ys : List (WriteRequest Json × Result Exception (Block Json)))
      → made (xs ++ ys) ≡ made xs ++ made ys
  made-append [] ys = refl
  made-append ((r, ok b) ∷ xs) ys = ap (λ l. b ∷ l) (made-append xs ys)
  made-append ((r, err e) ∷ xs) ys = made-append xs ys

module _ (lib : Library) where
  open lib use {Json}

  -- A block that will go into the chain fits it.
  abbrev pub Fits : Chain Json → Phase Json → Type 0
  Fits c (Phase.built r b) = IsIntact lib (push_persisted c b) × (b.event ≡ r.event)
  Fits c (Phase.persisted r b) = IsIntact lib (push_persisted c b) × (b.event ≡ r.event)
  Fits c (Phase.pushed r b) = b.event ≡ r.event
  Fits c (Phase.published r b) = b.event ≡ r.event
  Fits c Phase.idle = Unit {0}
  Fits c (Phase.popped r) = Unit {0}
  Fits c (Phase.failed r e) = Unit {0}
  Fits c Phase.ended = Unit {0}

  -- The chain is intact and not empty, and the broadcaster sound.
  pub record Shared (c : Chain Json) (h : Option (Broadcaster (Block Json))) : Type 0 where
    pub tail : Block Json
    pub tail_is : latest c ≡ some tail
    pub intact : IsIntact lib c
    pub hub : HubSound h

  -- `first` are the blocks that the chain began with.
  pub record Inv (first : List (Block Json)) (s : System Json) : Type 0 where
    pub shared : Shared s.app.chain s.app.broadcaster
    pub fits : Fits s.app.chain s.phase
    pub on_disk : OnDisk lib s.log (s.app.chain.blocks ++ written s.phase)
    pub in_chain : s.app.chain.blocks ≡ first ++ (s.told ++ untold s.phase)
    pub given : s.told ≡ made s.replies ++ unanswered s.phase
    pub accounted : s.accepted ≡ answered s.replies ++ (in_hand s.phase ++ queued s.app.write_queue)
    pub over : Over s.phase s.app.write_queue
    pub carried : All Carries s.replies
