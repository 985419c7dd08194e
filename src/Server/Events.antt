-- ===== src/Server/Events.antt =====
-- POST /events of storage-core/src/server.cpp: what it refuses, what it queues, and an error that
-- leaves the exception handler.
use iot_devices_ledger_audit.Prelude.{
  ℕ, ◌≤◌, ◌≡◌, ◌≢◌, sym, ap, subst, ◌∙◌, inl, inr, true, false, [], ◌∷◌, ◌++◌, Option, none, some,
  Result, ok, err, ◌>>=◌, Result-cases, Option-cases, Bool-cases, >>=-eq-err, >>=-eq-ok, some_inj,
  ltb, map_err-eq-err, is_empty, length, arith,
}
use iot_devices_ledger_audit.Prelude.Bytes.{Bytes, bytes}
use iot_devices_ledger_audit.Json.{Library}
use iot_devices_ledger_audit.Error.{Exception, api_error}
use iot_devices_ledger_audit.Block.{EventPayload, event_from_json}
use iot_devices_ledger_audit.Queue.{WriteQueue}
use iot_devices_ledger_audit.Queue
use iot_devices_ledger_audit.Writer.{AppState, WriteRequest}
use iot_devices_ledger_audit.Server.Index.{Request}
use iot_devices_ledger_audit.Server.Handlers.{parse_event, validate, enqueue, submit_event}

module _ (lib : Library) where
  open lib use {Json, parse, dump}

  -- Every way in which validation fails is a 400.
  validate-error :
      (body : Bytes) (e : Exception)
      → validate lib body ≡ err e
      → (m : Bytes) × (e ≡ api_error 400 m)
  unfolding validate parse_event
  validate-error body e h = elim (>>=-eq-err (parse_event lib body) _ h) [
    | inl p ↦
        let (m, _, q) =
          map_err-eq-err (λ k. api_error 400 (bytes "invalid event payload: " ++ k))
            (parse body >>= event_from_json lib) p in
        (_, q)
    | inr (event, _, q) ↦ elim (Bool-cases (is_empty event.event_type)) [
      | inl empty ↦ (bytes "event_type must not be empty", ground arith)
      | inr full ↦ absurd (ground arith)
    ]
  ]

  -- The queue takes the request of a valid event, refuses it, or keeps the handler waiting.
  pub data Submitted (state : AppState Json) (promise : ℕ) (req : Request)
      (r : Option (Result Exception (AppState Json))) : Type 0 where
    invalid : (m : Bytes) → r ≡ some (err (api_error 400 m)) → Submitted state promise req r
    unavailable :
        (m : Bytes)
        → ((q : WriteQueue (WriteRequest Json)) → state.write_queue ≡ some q → q.closed ≡ true)
        → r ≡ some (err (api_error 500 m))
        → Submitted state promise req r
    waits :
        (q : WriteQueue (WriteRequest Json))
        → state.write_queue ≡ some q
        → q.closed ≡ false
        → q.capacity ≤ length q.items
        → r ≡ none
        → Submitted state promise req r
    queued :
        (q : WriteQueue (WriteRequest Json)) (event : EventPayload Json)
        → state.write_queue ≡ some q
        → validate lib req.body ≡ ok event
        → event.event_type ≢ []
        → r
          ≡ some (
              ok (record state {
                write_queue = some (record q {
                  items = q.items ++ record { event = event; respond_to = promise } ∷ [];
                });
              }))
        → Submitted state promise req r

  validate-type :
      (body : Bytes) (event : EventPayload Json)
      → validate lib body ≡ ok event
      → event.event_type ≢ []
  unfolding validate
  validate-type body event h z =
      let (x, p, q) = >>=-eq-ok (parse_event lib body) _ h in ground (arith, ap is_empty z)

  module _ (state : AppState Json) (promise : ℕ) (req : Request) where
    enqueue-queue :
        (event : EventPayload Json) (q : WriteQueue (WriteRequest Json))
        → state.write_queue ≡ some q
        → validate lib req.body ≡ ok event
        → Submitted state promise req (enqueue lib state promise event)
    unfolding enqueue Queue.push
    enqueue-queue event q e v = elim (Bool-cases q.closed) [
      | inl c ↦
          unavailable (bytes "server is shutting down")
            (λ p x.
              subst (λ (k : WriteQueue (WriteRequest Json)). k.closed ≡ true) (some_inj (sym e ∙ x))
                c)
            (ground arith)
      | inr o ↦ elim (Bool-cases (ltb (length q.items) q.capacity)) [
        | inr full ↦ waits q e o (ground arith) (ground arith)
        | inl room ↦ queued q event e v (validate-type req.body event v) (ground arith)
      ]
    ]

    -- POST /events, up to its wait for the answer, does one of four things. It throws a 400; or a
    -- 500, only if there is no open queue; or it waits, only while the open queue is full; or it adds
    -- the validated event, whose type is not empty, to the end of the queue with the promise, and
    -- changes nothing else.
    pub submit_event-Submitted : Submitted state promise req (submit_event lib state promise req)
    unfolding submit_event enqueue
    submit_event-Submitted = elim (Result-cases (validate lib req.body)) [
      | inr (e, p) ↦
          let (m, q) = validate-error req.body e p in
          invalid m (rw (p, submit_event) (ap (λ x. some (err x)) q))
      | inl (event, p) ↦ elim (Option-cases state.write_queue) [
        | inl n ↦
            unavailable (bytes "writer unavailable") (λ q x. cc (x, n))
              (rw (p, submit_event) (ground arith))
        | inr (q, e) ↦ rw (p, submit_event) (enqueue-queue event q e p)
      ]
    ]
