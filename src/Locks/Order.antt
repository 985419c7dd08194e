-- ===== src/Locks/Order.antt =====
-- The order in which the threads of storage-core lock mutexes, and that their steps keep it.
use iot_devices_ledger_audit.Prelude.{
  ℕ, ◌<◌, ◌≡◌, refl, sym, subst, List, [], ◌∷◌, ◌++◌, All, All-append, All-left, All-right, map,
  arith,
}
use iot_devices_ledger_audit.Locks.Defs.{
  Mutex, of_queue, of_state, of_handle, of_conns, of_hub, of_subscription, Hold, Op, locks, unlocks,
  alone, guarded, SubscriptionCall, push, close, subscription_ops, each, BroadcasterCall, subscribe,
  subscriber_count, publish, broadcaster_ops, queue_ops, RequestPath, throws, in_chain, published,
  request_ops, HandlerCall, post_event, get_blocks, get_verify, get_health, refuses, handler_ops,
  handle_ops, ConnsCall, on_open, connection_count, on_close, turns_away, misses, conns_ops, Call,
  of_a_subscription, of_the_broadcaster, of_the_queue, of_a_request, of_a_handler, of_the_handle,
  of_the_conns, ops, all_ops, Thread, starting, Step, takes, gives, Steps, here, later,
}

-- The order: a subscription's mutex is locked behind any other one.
abbrev pub rank : Mutex → ℕ
rank of_queue = 0
rank of_state = 0
rank of_handle = 0
rank of_conns = 0
rank of_hub = 0
rank (of_subscription w) = 1

-- What is locked comes behind all that is held, and everything is given back.
abbrev pub IsOrdered : List Hold → List Op → Type 0
IsOrdered held [] = held ≡ []
IsOrdered held (locks h ∷ rest) =
    All (λ g. rank g.mutex < rank h.mutex) held × IsOrdered (h ∷ held) rest
IsOrdered [] (unlocks ∷ rest) = ⊥
IsOrdered (g ∷ held) (unlocks ∷ rest) = IsOrdered held rest

IsOrdered-append :
    (held : List Hold) (xs ys : List Op)
    → IsOrdered held xs
    → IsOrdered [] ys
    → IsOrdered held (xs ++ ys)
IsOrdered-append held [] ys a b = subst (λ l. IsOrdered l ys) (sym a) b
IsOrdered-append held (locks h ∷ xs) ys a b = (a.0, IsOrdered-append (h ∷ held) xs ys a.1 b)
IsOrdered-append [] (unlocks ∷ xs) ys a b = absurd a
IsOrdered-append (g ∷ held) (unlocks ∷ xs) ys a b = IsOrdered-append held xs ys a b

guarded-IsOrdered : (h : Hold) → IsOrdered [] (guarded h)
unfolding guarded
guarded-IsOrdered h = (tt, refl)

-- Under the broadcaster's mutex each subscription's is taken and given back.
each-IsOrdered :
    (call : SubscriptionCall) (ws : List ℕ)
    → IsOrdered (alone of_hub ∷ []) (each call ws ++ unlocks ∷ [])
unfolding each subscription_ops
each-IsOrdered call [] = refl
each-IsOrdered call (w ∷ ws) = ((omega arith, tt), each-IsOrdered call ws)

each_alone-IsOrdered : (call : SubscriptionCall) (ws : List ℕ) → IsOrdered [] (each call ws)
unfolding each subscription_ops
each_alone-IsOrdered call [] = refl
each_alone-IsOrdered call (w ∷ ws) = (tt, each_alone-IsOrdered call ws)

request-IsOrdered : (path : RequestPath) → IsOrdered [] (request_ops path)
unfolding request_ops guarded broadcaster_ops
request-IsOrdered throws = (tt, refl)
request-IsOrdered in_chain = (tt, (tt, refl))
request-IsOrdered (published ws) = (tt, (tt, (tt, each-IsOrdered push ws)))

broadcaster-IsOrdered : (call : BroadcasterCall) → IsOrdered [] (broadcaster_ops call)
unfolding broadcaster_ops guarded
broadcaster-IsOrdered subscribe = (tt, refl)
broadcaster-IsOrdered subscriber_count = (tt, refl)
broadcaster-IsOrdered (publish ws) = (tt, each-IsOrdered push ws)
broadcaster-IsOrdered (BroadcasterCall.close_all ws) = (tt, each-IsOrdered close ws)

handler-IsOrdered : (call : HandlerCall) → IsOrdered [] (handler_ops call)
unfolding handler_ops queue_ops guarded
handler-IsOrdered post_event = (tt, refl)
handler-IsOrdered get_blocks = (tt, refl)
handler-IsOrdered get_verify = (tt, refl)
handler-IsOrdered get_health = refl
handler-IsOrdered refuses = refl

conns-IsOrdered : (call : ConnsCall) → IsOrdered [] (conns_ops call)
unfolding conns_ops broadcaster_ops subscription_ops guarded
conns-IsOrdered on_open = (tt, (tt, refl))
conns-IsOrdered connection_count = (tt, refl)
conns-IsOrdered turns_away = refl
conns-IsOrdered misses = (tt, refl)
conns-IsOrdered (on_close w) = (tt, (tt, refl))
conns-IsOrdered (ConnsCall.close_all ws) = (tt, each_alone-IsOrdered close ws)

ops-IsOrdered : (call : Call) → IsOrdered [] (ops call)
unfolding ops subscription_ops queue_ops handle_ops
ops-IsOrdered (of_a_subscription w call) = guarded-IsOrdered (alone (of_subscription w))
ops-IsOrdered (of_the_broadcaster call) = broadcaster-IsOrdered call
ops-IsOrdered (of_the_queue call) = guarded-IsOrdered (alone of_queue)
ops-IsOrdered (of_a_request path) = request-IsOrdered path
ops-IsOrdered (of_a_handler call) = handler-IsOrdered call
ops-IsOrdered (of_the_handle call) = guarded-IsOrdered (alone of_handle)
ops-IsOrdered (of_the_conns call) = conns-IsOrdered call

all_ops-IsOrdered : (calls : List Call) → IsOrdered [] (all_ops calls)
unfolding all_ops
all_ops-IsOrdered [] = refl
all_ops-IsOrdered (call ∷ calls) =
    IsOrdered-append [] (ops call) (all_ops calls) (ops-IsOrdered call) (all_ops-IsOrdered calls)

abbrev pub InOrder : Thread → Type 0
InOrder t = IsOrdered t.held t.rest

pub starting-InOrder : (programs : List (List Call)) → All InOrder (map starting programs)
starting-InOrder [] = tt
starting-InOrder (calls ∷ programs) = (all_ops-IsOrdered calls, starting-InOrder programs)

-- One thread among others changes.
swapped :
    (before after : List Thread) (t u : Thread) (ts us : List Thread)
    → ts ≡ before ++ t ∷ after
    → us ≡ before ++ u ∷ after
    → (InOrder t → InOrder u)
    → All InOrder ts
    → All InOrder us
swapped before after t u ts us e f keep a =
    let b = subst (All InOrder) e a in
    subst (All InOrder) (sym f) (
      All-append InOrder before (u ∷ after) (All-left InOrder before (t ∷ after) b)
        (let r = All-right InOrder before (t ∷ after) b in (keep r.0, r.1)))

Step-InOrder : (ts us : List Thread) → Step ts us → All InOrder ts → All InOrder us
Step-InOrder ts us (takes before after held h rest e f free) a =
    swapped before after _ _ ts us e f (λ x. x.1) a
Step-InOrder ts us (gives before after held h rest e f) a =
    swapped before after _ _ ts us e f (λ x. x) a

pub Steps-InOrder : (ts us : List Thread) → Steps ts us → All InOrder ts → All InOrder us
Steps-InOrder ts us here a = a
Steps-InOrder ts us (later {us = ws} p x) a = Step-InOrder ws us x (Steps-InOrder ts ws p a)
