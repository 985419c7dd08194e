-- ===== src/Server/Index.antt =====
-- `parse_index` of storage-core/src/server.cpp, and the parts of `httplib::Request` and
-- `httplib::Response` that the handlers use.
use iot_devices_ledger_audit.Prelude.{
  ℕ, ◌^◌, not, ◌||◌, List, ◌++◌, Option, none, some, Result, ok, err, is_empty, leb, if◌then◌else◌,
}
use iot_devices_ledger_audit.Prelude.Bytes.{Bytes, bytes}
use iot_devices_ledger_audit.Prelude.Decimal.{all_digits, value}
use iot_devices_ledger_audit.Error.{Exception, api_error, out_of_range}

-- `has_param` and `get_param_value` of a name, and the same of a header: no value, or the first one.
pub record Request : Type 0 where
  pub method : Bytes
  pub path : Bytes
  pub body : Bytes
  pub param : Bytes → Option Bytes
  pub header : Bytes → Option Bytes

-- `none` is the status -1, of a response whose handler set none.
pub record Response : Type 0 where
  pub status : Option ℕ
  pub headers : List (Bytes × Bytes)
  pub content : Bytes

-- `std::stoull` on a text of digits.
unfoldable pub stoull : Bytes → Result Exception ℕ
stoull digits =
    if leb (2 ^ 64) (value 0 digits)
    then err (out_of_range (bytes "stoull"))
    else ok (value 0 digits)

unfoldable pub read_index : Bytes → Result Exception ℕ → Result Exception ℕ
read_index name (ok n) = ok n
read_index name (err e) = err (api_error 400 (name ++ bytes " is out of range"))

unfoldable pub index_of : Bytes → Bytes → Result Exception ℕ
unfolding stoull read_index
index_of name text =
    if is_empty text || not (all_digits text)
    then err (api_error 400 (name ++ bytes " must be a non-negative integer"))
    else read_index name (stoull text)

unfoldable pub parse_index : Request → Bytes → ℕ → Result Exception ℕ
unfolding index_of
parse_index req name fallback = elim (req.param name) [
  | none ↦ ok fallback
  | some text ↦ index_of name text
]
