-- ===== src/Writer/Defs.antt =====
-- The writer thread of storage-core/src/writer.cpp, and the state that it shares with the handlers
-- (`AppState` of storage-core/include/server.hpp). A promise is a number; what a loop iteration
-- asks of the clock and of the disk is an argument. `none` is undefined behaviour.
use iot_devices_ledger_audit.Prelude.{
  ℕ, Bool, true, false, List, [], ◌∷◌, ◌++◌, Option, none, some, Result, ok, err,
}
use iot_devices_ledger_audit.Prelude.Bytes.{Bytes}
use iot_devices_ledger_audit.Json.{Library}
use iot_devices_ledger_audit.Error.{Exception, json_error}
use iot_devices_ledger_audit.Block.{EventPayload, Block, make_block}
use iot_devices_ledger_audit.Chain.{Chain, latest, size, push_persisted}
use iot_devices_ledger_audit.Storage.{Stream, append_block}
use iot_devices_ledger_audit.Queue.{WriteQueue, pop}
use iot_devices_ledger_audit.Broadcast.{Broadcaster, publish}

pub record WriteRequest (Json : Type 0) : Type 0 where
  pub event : EventPayload Json
  pub respond_to : ℕ

pub record AppState (Json : Type 0) : Type 0 where
  pub chain : Chain Json
  pub write_queue : Option (WriteQueue (WriteRequest Json))
  pub broadcaster : Option (Broadcaster (Block Json))

-- The writer thread: the shared state, the log that it owns, and the promises that it has kept.
pub record Writer (Json : Type 0) : Type 0 where
  pub state : AppState Json
  pub log : Stream
  pub replies : List (ℕ × Result Exception (Block Json))

-- What one iteration reads from its surroundings.
pub record Surroundings : Type 0 where
  pub now : ℕ
  pub disk : Option ℕ

module _ (lib : Library) where
  open lib use {Json}

  unfoldable pub build_next :
      ℕ → AppState Json → EventPayload Json → Option (Result Bytes (Block Json))
  build_next now state event = elim (latest state.chain) [
    | none ↦ none
    | some last ↦ some (make_block lib now (size state.chain) event last.hash)
  ]

  -- `broadcaster->publish(reply)`, if there is one.
  unfoldable pub fan_out : AppState Json → Block Json → Option (AppState Json)
  fan_out state reply = elim state.broadcaster [
    | none ↦ some state
    | some h ↦ elim (publish h reply) [
      | none ↦ none
      | some h' ↦ some (record state { broadcaster = some h' })
    ]
  ]

  unfoldable pub push_reply :
      AppState Json
      → Stream
      → Block Json
      → Option (Result Exception (Block Json) × AppState Json × Stream)
  unfolding fan_out
  push_reply state os created =
      elim (fan_out (record state { chain = push_persisted state.chain created }) created) [
        | none ↦ none
        | some state' ↦ some (ok created, state', os)
      ]

  unfoldable pub persisted :
      AppState Json
      → Block Json
      → Result Exception (Unit {0}) × Stream
      → Option (Result Exception (Block Json) × AppState Json × Stream)
  persisted state created (err e, os) = some (err e, state, os)
  persisted state created (ok u, os) = push_reply state os created

  -- The body of the loop: the reply for the promise, and the state and the log after it.
  unfoldable pub handle_request :
      Surroundings
      → AppState Json
      → Stream
      → EventPayload Json
      → Option (Result Exception (Block Json) × AppState Json × Stream)
  handle_request env state os event = elim (build_next env.now state event) [
    | none ↦ none
    | some r ↦ elim r [
      | err message ↦ some (err (json_error message), state, os)
      | ok created ↦ persisted state created (append_block lib env.disk os created)
    ]
  ]

  unfoldable pub replied :
      Writer Json
      → ℕ
      → Option (Result Exception (Block Json) × AppState Json × Stream)
      → Option (Writer Json)
  replied w promise none = none
  replied w promise (some (reply, state, os)) =
      some (record { state = state; log = os; replies = w.replies ++ (promise, reply) ∷ [] })

  -- The loop over the requests that it pops, until the queue is closed and drained.
  unfoldable pub writer_loop :
      Writer Json → List (Surroundings × WriteRequest Json) → Option (Writer Json)
  unfolding replied
  writer_loop w [] = some w
  writer_loop w ((env, request) ∷ rest) =
      elim (replied w request.respond_to (handle_request env w.state w.log request.event)) [
        | none ↦ none
        | some w' ↦ writer_loop w' rest
      ]

  -- The thread on its queue, for as many rounds as there are surroundings: whether it has ended,
  -- what it has done, and the queue. It has not ended while it waits in `pop`.
  unfoldable pub run_thread :
      List Surroundings
      → Writer Json
      → WriteQueue (WriteRequest Json)
      → Option (Bool × Writer Json × WriteQueue (WriteRequest Json))
  run_thread [] w q = some (false, w, q)
  run_thread (env ∷ envs) w q = elim (pop q) [
    | none ↦ some (false, w, q)
    | some popped ↦ elim popped.0 [
      | none ↦ some (true, w, popped.1)
      | some request ↦ elim (writer_loop w ((env, request) ∷ [])) [
        | none ↦ none
        | some w' ↦ run_thread envs w' popped.1
      ]
    ]
  ]
