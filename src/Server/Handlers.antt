-- ===== src/Server/Handlers.antt =====
-- The handlers of storage-core/src/server.cpp. A handler returns the response or throws; each
-- critical section is one call on the shared state.
use iot_devices_ledger_audit.Prelude.{
  ℕ, ◌+◌, ◌-◌, ◌%◌, ◌^◌, min, Bool, true, false, List, [], ◌∷◌, ◌++◌, map, Option, none, some,
  Result, ok, err, ◌>>=◌, map_err, length, take, drop, is_empty, ltb, if◌then◌else◌,
}
use iot_devices_ledger_audit.Prelude.Bytes.{Bytes, bytes}
use iot_devices_ledger_audit.Prelude.Decimal.{to_string}
use iot_devices_ledger_audit.Json.{Library}
use iot_devices_ledger_audit.Error.{Exception, api_error, json_error, to_error_response}
use iot_devices_ledger_audit.Block.{
  EventPayload, Block, event_from_json, block_to_json, now_rfc3339,
}
use iot_devices_ledger_audit.Chain.{VerifyResult, verify}
use iot_devices_ledger_audit.Queue.{WriteQueue}
use iot_devices_ledger_audit.Queue
use iot_devices_ledger_audit.Writer.{AppState, WriteRequest}
use iot_devices_ledger_audit.Server.Index.{Request, Response, parse_index}

-- `res.set_content(content, "application/json")`, with the status that the handler set, if it did.
unfoldable pub json_response : Option ℕ → Bytes → Response
json_response status content = record {
  status = status;
  headers = (bytes "Content-Type", bytes "application/json") ∷ [];
  content = content;
}

-- The post-routing handler of `install_cors`.
unfoldable pub add_cors : Response → Response
add_cors res = record res {
  headers =
      res.headers
      ++ ((bytes "Access-Control-Allow-Origin", bytes "*")
          ∷ (bytes "Access-Control-Allow-Methods", bytes "GET, POST, OPTIONS")
          ∷ (bytes "Access-Control-Allow-Headers", bytes "Content-Type")
          ∷ []);
}

unfoldable pub invalid_range : ℕ → ℕ → Bytes
invalid_range from to =
    bytes "invalid range: from=" ++ (to_string from ++ (bytes " exceeds to=" ++ to_string to))

-- The slice of GET /blocks under the shared lock, with the length of the chain.
unfoldable pub select {ℓ} : {A : Type ℓ} → List A → ℕ → ℕ → Result Exception (List A × ℕ)
select blocks from to_requested =
    let chain_length = length blocks in
    let last = (chain_length + 2 ^ 64 - 1) % 2 ^ 64 in
    let to = min to_requested last in
    if ltb to from
    then err (api_error 400 (invalid_range from to))
    else ok (take (to - from + 1) (drop from blocks), chain_length)

module _ (lib : Library) where
  open lib use {Json, null, of_bool, of_uint, of_str, of_list, of_fields, dump, parse}

  -- The exception handler; its own error is an exception that leaves the handler.
  unfoldable pub on_exception : Exception → Result Bytes Response
  on_exception e = do r ← to_error_response lib e; ok (json_response (some r.status) r.body)

  -- What the server does with a handler's outcome. `settle` is what the library makes of a response
  -- before the post-routing handler sees it.
  unfoldable pub respond : (Response → Response) → Result Exception Response → Result Bytes Response
  respond settle (ok res) = ok (add_cors (settle res))
  respond settle (err e) = do res ← on_exception e; ok (add_cors (settle res))

  unfoldable pub parse_event : Bytes → Result Exception (EventPayload Json)
  parse_event body =
      map_err (λ m. api_error 400 (bytes "invalid event payload: " ++ m))
        (parse body >>= event_from_json lib)

  unfoldable pub validate : Bytes → Result Exception (EventPayload Json)
  validate body = parse_event body >>= λ event.
      if is_empty event.event_type
      then err (api_error 400 (bytes "event_type must not be empty"))
      else ok event

  unfoldable pub pushed :
      AppState Json
      → Option (Bool × WriteQueue (WriteRequest Json))
      → Option (Result Exception (AppState Json))
  pushed state none = none
  pushed state (some (false, q)) = some (err (api_error 500 (bytes "server is shutting down")))
  pushed state (some (true, q)) = some (ok (record state { write_queue = some q }))

  unfoldable pub enqueue :
      AppState Json → ℕ → EventPayload Json → Option (Result Exception (AppState Json))
  unfolding pushed
  enqueue state promise event = elim state.write_queue [
    | none ↦ some (err (api_error 500 (bytes "writer unavailable")))
    | some q ↦ pushed state (Queue.push q (record { event = event; respond_to = promise }))
  ]

  -- POST /events up to the wait for the future: `none` while the queue is full.
  unfoldable pub submit_event :
      AppState Json → ℕ → Request → Option (Result Exception (AppState Json))
  submit_event state promise req = elim (validate req.body) [
    | err e ↦ some (err e)
    | ok event ↦ enqueue state promise event
  ]

  -- POST /events from what the future gives.
  unfoldable pub finish_event : Result Exception (Block Json) → Result Exception Response
  finish_event reply = do
    created ← reply
    text ← map_err json_error (dump (block_to_json lib created))
    ok (json_response (some 201) text)

  unfoldable pub get_blocks : AppState Json → Request → Result Exception Response
  get_blocks state req = do
    from ← parse_index req (bytes "from") 0
    to_requested ← parse_index req (bytes "to") (2 ^ 64 - 1)
    slice ← select state.chain.blocks from to_requested
    text ← map_err json_error (
        dump (
          of_fields (
            (bytes "blocks", of_list (map (block_to_json lib) slice.0))
            ∷ (bytes "chain_length", of_uint slice.1)
            ∷ [])))
    ok (json_response none text)

  unfoldable pub first_invalid : Option ℕ → Json
  first_invalid none = null
  first_invalid (some i) = of_uint i

  unfoldable pub verify_body : ℕ → VerifyResult → Json
  unfolding first_invalid
  verify_body now result = of_fields (
      (bytes "valid", of_bool result.valid)
      ∷ (bytes "chain_length", of_uint result.chain_length)
      ∷ (bytes "checked_blocks", of_uint result.checked_blocks)
      ∷ (bytes "first_invalid_index", first_invalid result.first_invalid_index)
      ∷ (bytes "verified_at", of_str (now_rfc3339 now))
      ∷ [])

  unfoldable pub get_verify : AppState Json → ℕ → Result Exception Response
  get_verify state now = do
    result ← map_err json_error (verify lib state.chain)
    text ← map_err json_error (dump (verify_body now result))
    ok (json_response none text)

  unfoldable pub get_health : Result Exception Response
  get_health = do
    text ← map_err json_error (dump (of_fields ((bytes "status", of_str (bytes "ok")) ∷ [])))
    ok (json_response none text)
