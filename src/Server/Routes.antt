-- ===== src/Server/Routes.antt =====
-- `install_routes` of storage-core/src/server.cpp: the routes, and what becomes of a request. How
-- cpp-httplib finds the route of a request, and what it answers without one, is a parameter.
use iot_devices_ledger_audit.Prelude.{
  ℕ, ◌≡◌, ◌≤◌, ◌<◌, ◌⊎◌, List, [], ◌∷◌, ◌++◌, Option, none, some, Result, ok, err,
}
use iot_devices_ledger_audit.Prelude.Bytes.{Bytes, bytes}
use iot_devices_ledger_audit.Prelude.Decimal.{to_string}
use iot_devices_ledger_audit.Json.{Library}
use iot_devices_ledger_audit.Error.{Exception, foreign, what}
use iot_devices_ledger_audit.Block.{Block}
use iot_devices_ledger_audit.Log.{Logger, print_error, print_info}
use iot_devices_ledger_audit.Writer.{AppState}
use iot_devices_ledger_audit.Server.Index.{Request, Response}
use iot_devices_ledger_audit.Server.Handlers.{
  add_cors, respond, submit_event, finish_event, get_blocks, get_verify, get_health,
}

pub data Handler : Type 0 where
  preflight health events blocks verify : Handler

pub record Route : Type 0 where
  pub method : Bytes
  pub pattern : Bytes
  pub handler : Handler

abbrev pub route : Bytes → Bytes → Handler → Route
route method pattern handler = record { method = method; pattern = pattern; handler = handler }

-- In the order of their registration.
unfoldable pub routes : List Route
routes =
    route (bytes "OPTIONS") (bytes ".*") preflight
    ∷ route (bytes "GET") (bytes "/health") health
    ∷ route (bytes "POST") (bytes "/events") events
    ∷ route (bytes "GET") (bytes "/blocks") blocks
    ∷ route (bytes "GET") (bytes "/verify") verify
    ∷ []

pub data Registered (r : Route) : List Route → Type 0 where
  first : {rs : List Route} → Registered r (r ∷ rs)
  further : {s : Route} {rs : List Route} → Registered r rs → Registered r (s ∷ rs)

-- What the service leaves to cpp-httplib: the route of a request, if it comes to one; the answer
-- without one; and what it makes of a response with the request's headers, as its ranges.
pub record Http : Type 0 where
  pub dispatch : List Route → Request → Option Handler
  pub unmatched : Request → Response
  pub settle : Request → Response → Response

-- The status of a response that a handler has set, or else OK.
abbrev pub set_or_ok : Option ℕ → ℕ
set_or_ok none = 200
set_or_ok (some n) = n

-- What cpp-httplib documents: a handler runs for a request of the method that it was registered for,
-- or for a HEAD request if that is GET; without a handler the answer is an error of the client or of
-- the server. A status that no handler set is 200, or 206 for a request of ranges; and a success with
-- ranges that cannot be served is a 416.
pub record HttpLaws (http : Http) : Type 0 where
  pub listed :
      (rs : List Route) (req : Request) (h : Handler)
      → http.dispatch rs req ≡ some h
      → (r : Route) × Registered r rs
        × (r.handler ≡ h)
        × ((req.method ≡ r.method) ⊎ ((req.method ≡ bytes "HEAD") × (r.method ≡ bytes "GET")))
  pub unmatched_status :
      (req : Request) → (n : ℕ) × ((http.unmatched req).status ≡ some n) × (400 ≤ n) × (n ≤ 599)
  pub settled :
      (req : Request) (res : Response)
      → ((http.settle req res).status ≡ some (set_or_ok res.status))
        ⊎ (((v : Bytes) × (req.header (bytes "Range") ≡ some v))
            × ((((http.settle req res).status ≡ some 206) × (res.status ≡ none))
                ⊎ (((http.settle req res).status ≡ some 416) × (set_or_ok res.status < 300))))

-- `std::to_string(res.status)`.
unfoldable pub status_text : Option ℕ → Bytes
status_text none = bytes "-1"
status_text (some n) = to_string n

-- The logger of `install_logger`.
unfoldable pub log_request : ℕ → Request → Response → Logger → Logger
unfolding status_text
log_request now req res l =
    print_info now (req.method ++ (b' ' ∷ (req.path ++ (bytes " -> " ++ status_text res.status)))) l

-- What the exception handler logs.
unfoldable pub log_exception : ℕ → Exception → Logger → Logger
log_exception now foreign l = print_error now (bytes "unhandled non-standard exception") l
log_exception now e l = print_error now (bytes "unhandled exception: " ++ what e) l

unfoldable pub log_outcome : ℕ → Result Exception Response → Logger → Logger
log_outcome now (ok res) l = l
log_outcome now (err e) l = log_exception now e l

unfoldable pub log_response : ℕ → Request → Result Bytes Response → Logger → Logger
log_response now req (ok res) l = log_request now req res l
log_response now req (err message) l = l

unfoldable pub preflight_response : Response
preflight_response = record { status = some 204; headers = []; content = [] }

module _ (lib : Library) where
  open lib use {Json}

  -- What a handler gives, and the shared state after it.
  abbrev pub Outcome : Type 0
  Outcome = Result Exception Response × AppState Json

  unfoldable pub finish :
      AppState Json → Result Exception (Block Json) → Result Exception (AppState Json) → Outcome
  finish state reply (err e) = (err e, state)
  finish state reply (ok state') = (finish_event lib reply, state')

  -- `reply` is what the future gives.
  unfoldable pub post_event :
      AppState Json → ℕ → Result Exception (Block Json) → Request → Option Outcome
  unfolding finish
  post_event state promise reply req = elim (submit_event lib state promise req) [
    | none ↦ none
    | some r ↦ some (finish state reply r)
  ]

  unfoldable pub run_handler :
      Handler → AppState Json → ℕ → ℕ → Result Exception (Block Json) → Request → Option Outcome
  run_handler preflight state promise now reply req = some (ok preflight_response, state)
  run_handler health state promise now reply req = some (get_health lib, state)
  run_handler events state promise now reply req = post_event state promise reply req
  run_handler blocks state promise now reply req = some (get_blocks lib state req, state)
  run_handler verify state promise now reply req = some (get_verify lib state now, state)

  unfoldable pub answer :
      Http → ℕ → Request → Logger → Outcome → Result Bytes Response × AppState Json × Logger
  answer http now req l (r, state) =
      let res = respond lib (http.settle req) r in
      (res, state, log_response now req res (log_outcome now r l))

  unfoldable pub unanswered :
      Http → ℕ → Request → AppState Json → Logger → Result Bytes Response × AppState Json × Logger
  unanswered http now req state l =
      let res = add_cors (http.unmatched req) in (ok res, state, log_request now req res l)

  -- From the request to the response: `none` while POST /events waits for room in the queue. An error
  -- is an exception that leaves the exception handler.
  unfoldable pub exchange :
      Http
      → AppState Json
      → ℕ
      → ℕ
      → Result Exception (Block Json)
      → Request
      → Logger
      → Option (Result Bytes Response × AppState Json × Logger)
  unfolding answer unanswered
  exchange http state promise now reply req l = elim (http.dispatch routes req) [
    | none ↦ some (unanswered http now req state l)
    | some h ↦ elim (run_handler h state promise now reply req) [
      | none ↦ none
      | some out ↦ some (answer http now req l out)
    ]
  ]
