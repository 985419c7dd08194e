-- ===== src/Examples/Exchanging.antt =====
-- A request through the routes.
use iot_devices_ledger_audit.Prelude.{List, [], ◌∷◌, Option, none, some, Result, ok, if◌then◌else◌}
use iot_devices_ledger_audit.Prelude.Bytes.{Bytes, str_eq}
use iot_devices_ledger_audit.Json.Sample.{sample}
use iot_devices_ledger_audit.Log.{Logger, default_logger}
use iot_devices_ledger_audit.Writer.{AppState}
use iot_devices_ledger_audit.Server.{Request, Response}
use iot_devices_ledger_audit.Server.Routes.{Handler, Route, Http, set_or_ok, exchange}
use iot_devices_ledger_audit.Examples.Data.{Json, second_block}
use iot_devices_ledger_audit.Examples.Running.{post, booted}

-- A library that looks at the method only.
by_method : List Route → Request → Option Handler
by_method [] req = none
by_method (r ∷ rs) req =
    let rest = by_method rs req in if str_eq req.method r.method then some r.handler else rest

not_found : Response
not_found = record { status = some 404; headers = []; content = [] }

-- And that serves no ranges.
settle_status : Request → Response → Response
settle_status req res = record res { status = some (set_or_ok res.status) }

http : Http
http = record { dispatch = by_method; unmatched = λ req. not_found; settle = settle_status }

-- The parts of an exchange, where it is complete.
abbrev Given : Type 0
Given = Option (Result Bytes Response × AppState Json × Logger)

abbrev response_of : Given → Response
response_of (some (ok res, state, l)) = res
response_of _ = not_found

abbrev state_of : Given → AppState Json
state_of (some (r, state, l)) = state
state_of none = booted

abbrev logger_of : Given → Logger
logger_of (some (r, state, l)) = l
logger_of none = default_logger

abbrev given : Given
given = exchange sample http booted 7 60 (ok second_block) post default_logger
