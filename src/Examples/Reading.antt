-- ===== src/Examples/Reading.antt =====
-- The properties of the configuration, the log levels and the error responses at concrete inputs.
use iot_devices_ledger_audit.Prelude.{◌≡◌, ◌∷◌, ◌++◌, refl, ok, arith}
use iot_devices_ledger_audit.Prelude.Bytes.{bytes}
use iot_devices_ledger_audit.Prelude.Decimal.{to_string, is_digit}
use iot_devices_ledger_audit.Prelude.Int.{pos}
use iot_devices_ledger_audit.Config.{rfind, parse_address}
use iot_devices_ledger_audit.Config.Address.{parse_address-port}

-- `host:8080 #old`
parse_address-port_example :
    parse_address (bytes "BIND_ADDR") (bytes "host" ++ b':' ∷ (to_string 8080 ++ bytes " #old"))
    ≡ ok (bytes "host", pos 8080)
unfolding bytes is_digit rfind
parse_address-port_example =
    parse_address-port (bytes "BIND_ADDR") (bytes "host") (bytes " #old") 8080 (omega arith) refl
      refl
