-- ===== src/Config/Defs.antt =====
-- storage-core/include/config.hpp, with `std::string::rfind` and `std::stoi` for a 32-bit `int`.
-- The environment is a function: `getenv` of a name has no value, or a text that may be empty.
use iot_devices_ledger_audit.Prelude.{
  ℕ, suc, ◌+◌, ◌^◌, Bool, true, false, ◌&&◌, ◌||◌, [], ◌∷◌, ◌++◌, Option, none, some, Result, ok,
  err, ◌>>=◌, map_err, ltb, leb, ◌==◌, if◌then◌else◌, take, drop, is_empty,
}
use iot_devices_ledger_audit.Prelude.Bytes.{Bytes, bytes}
use iot_devices_ledger_audit.Prelude.Decimal.{is_digit, value}
use iot_devices_ledger_audit.Prelude.Int.{ℤ, pos, neg}
use iot_devices_ledger_audit.Error.{Exception, invalid_argument, out_of_range}
use iot_devices_ledger_audit.Log.{Level, level_from}

pub record Config : Type 0 where
  pub bind_host : Bytes
  pub bind_port : ℤ
  pub ws_host : Bytes
  pub ws_port : ℤ
  pub ledger_path : Bytes
  pub log_level : Level

-- The position of the last `c`.
unfoldable pub rfind : ℕ → Bytes → Option ℕ
rfind c [] = none
rfind c (x ∷ xs) = elim (rfind c xs) [
  | some i ↦ some (suc i)
  | none ↦ if x == c then some 0 else none
]

is_space : ℕ → Bool
is_space c = (leb 9 c && leb c 13) || c == 32

unfoldable pub skip_spaces : Bytes → Bytes
unfolding is_space
skip_spaces [] = []
skip_spaces (c ∷ cs) = let rest = skip_spaces cs in if is_space c then rest else c ∷ cs

-- The digits that a text begins with.
unfoldable pub take_digits : Bytes → Bytes
unfolding is_digit
take_digits [] = []
take_digits (c ∷ cs) = let rest = take_digits cs in if is_digit c then c ∷ rest else []

unfoldable pub to_int32 : Bool → Bytes → Result Exception ℤ
to_int32 negative digits =
    let n = value 0 digits in
    if is_empty digits
    then err (invalid_argument (bytes "stoi"))
    else if negative
    then (if ltb (2 ^ 31) n then err (out_of_range (bytes "stoi")) else ok (neg n))
    else if leb (2 ^ 31) n
    then err (out_of_range (bytes "stoi"))
    else ok (pos n)

unfoldable pub read_sign : Bytes → Result Exception ℤ
unfolding to_int32 take_digits
read_sign [] = to_int32 false []
read_sign (c ∷ cs) =
    if c == b'-'
    then to_int32 true (take_digits cs)
    else if c == b'+'
    then to_int32 false (take_digits cs)
    else to_int32 false (take_digits (c ∷ cs))

-- Leading spaces, a sign and digits; what follows the digits is ignored.
unfoldable pub stoi : Bytes → Result Exception ℤ
unfolding read_sign skip_spaces
stoi s = read_sign (skip_spaces s)

-- `detail::env_or`
unfoldable pub env_or : (Bytes → Option Bytes) → Bytes → Bytes → Bytes
env_or env key fallback = elim (env key) [
  | none ↦ fallback
  | some v ↦ if is_empty v then fallback else v
]

unfoldable pub split_at : Bytes → Bytes → ℕ → Result Exception (Bytes × ℤ)
split_at variable addr colon = do
  port ←
      map_err (λ _. invalid_argument (variable ++ (bytes " port is not a number: " ++ addr)))
        (stoi (drop (colon + 1) addr))
  ok (take colon addr, port)

-- The code that `load_config` has once for BIND_ADDR and once for WS_BIND_ADDR.
unfoldable pub parse_address : Bytes → Bytes → Result Exception (Bytes × ℤ)
unfolding split_at
parse_address variable addr = elim (rfind b':' addr) [
  | none ↦ err (invalid_argument (variable ++ (bytes " must be host:port, got: " ++ addr)))
  | some colon ↦ split_at variable addr colon
]

unfoldable pub load_config : (Bytes → Option Bytes) → Result Exception Config
load_config env =
    parse_address (bytes "BIND_ADDR") (env_or env (bytes "BIND_ADDR") (bytes "0.0.0.0:8080"))
    >>= λ bind.
        parse_address (bytes "WS_BIND_ADDR")
          (env_or env (bytes "WS_BIND_ADDR") (bytes "0.0.0.0:8081"))
        >>= λ ws. ok (record {
          bind_host = bind.0;
          bind_port = bind.1;
          ws_host = ws.0;
          ws_port = ws.1;
          ledger_path = env_or env (bytes "LEDGER_PATH") (bytes "./data/ledger.log");
          log_level = level_from (env_or env (bytes "LOG_LEVEL") (bytes "info"));
        })
