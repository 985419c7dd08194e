-- ===== src/Server/Exchange.antt =====
-- A request through the routes of storage-core/src/server.cpp: what any client and any state get.
use iot_devices_ledger_audit.Prelude.{ℕ, ◌≡◌, ◌⊎◌, Result}
use iot_devices_ledger_audit.Prelude.Bytes.{Bytes, bytes}
use iot_devices_ledger_audit.Json.{Library}
use iot_devices_ledger_audit.Error.{Exception}
use iot_devices_ledger_audit.Block.{Block}
use iot_devices_ledger_audit.Log.{Logger}
use iot_devices_ledger_audit.Writer.{AppState}
use iot_devices_ledger_audit.Server.Index.{Request, Response}
use iot_devices_ledger_audit.Server.Handlers.{add_cors}
use iot_devices_ledger_audit.Server.Replies.{FromWriter}
use iot_devices_ledger_audit.Server.Routes.{routes, Http, HttpLaws, log_request, log_exception}
use iot_devices_ledger_audit.Server.Answers.{Allowed}

module _ (lib : Library) where
  open lib use {Json}

  module _ (http : Http) (laws : HttpLaws http) (state : AppState Json) (promise now : ℕ)
      (reply : Result Exception (Block Json)) (req : Request) (l : Logger)
      (given : FromWriter lib reply) where
    -- What the theorem says of a response and the state behind it.
    pub record Exchanged (res : Response) (state' : AppState Json) (l' : Logger) : Type 0 where
      pub allowed : Allowed req (http.dispatch routes req) res.status
      pub cors : (inner : Response) × (res ≡ add_cors inner)
      pub chain_is : state'.chain ≡ state.chain
      pub hub_is : state'.broadcaster ≡ state.broadcaster
      pub posted : (state' ≡ state) ⊎ (req.method ≡ bytes "POST")
      pub logged :
          (l' ≡ log_request now req res l)
          ⊎ ((e : Exception) × (l' ≡ log_request now req res (log_exception now e l)))

    -- The parts of what the exchange gives.
    abbrev Parts : Type 0
    Parts = Result Bytes Response × AppState Json × Logger
