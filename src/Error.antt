-- ===== src/Error.antt =====
-- storage-core/include/error.hpp: the exceptions of the service and their HTTP form. An error in a
-- `Result Bytes` is the message of a `nlohmann::json::exception`.
use iot_devices_ledger_audit.Prelude.{ℕ, ◌≡◌, ◌≢◌, refl, [], ◌∷◌, Result, ok, ◌>>=◌}
use iot_devices_ledger_audit.Prelude.Bytes.{Bytes, bytes}
use iot_devices_ledger_audit.Json.{Library}

-- What the service's code throws or lets through, each with its message. `foreign` is what is not
-- derived from `std::exception`.
pub data Exception : Type 0 where
  api_error : ℕ → Bytes → Exception
  storage_error : Bytes → Exception
  json_error : Bytes → Exception
  invalid_argument : Bytes → Exception
  out_of_range : Bytes → Exception
  foreign : Exception

-- `e.what()`; the last case has none, and is never asked for one.
unfoldable pub what : Exception → Bytes
what (api_error status message) = message
what (storage_error message) = message
what (json_error message) = message
what (invalid_argument message) = message
what (out_of_range message) = message
what foreign = []

pub record ErrorResponse : Type 0 where
  pub status : ℕ
  pub body : Bytes

module _ (lib : Library) where
  open lib use {of_str, of_fields, dump}

  unfoldable pub error_body : Bytes → Result Bytes Bytes
  error_body message = dump (of_fields ((bytes "error", of_str message) ∷ []))

  unfoldable pub error_response : ℕ → Bytes → Result Bytes ErrorResponse
  unfolding error_body
  error_response status message = do
    body ← error_body message
    ok (record { status = status; body = body })

  -- The dump itself may throw, on a message that is not UTF-8.
  unfoldable pub to_error_response : Exception → Result Bytes ErrorResponse
  unfolding error_response
  to_error_response (api_error status message) = error_response status message
  to_error_response _ = error_response 500 (bytes "internal error")

  -- A 500 tells nothing of its cause: two exceptions of the code that are no `ApiError` are answered alike.
  to_error_response-generic :
      (e : Exception)
      → ((status : ℕ) (message : Bytes) → e ≢ api_error status message)
      → to_error_response e ≡ to_error_response (storage_error [])
  unfolding to_error_response
  to_error_response-generic (api_error s m) h = absurd (h s m refl)
  to_error_response-generic _ h = refl
