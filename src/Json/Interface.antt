-- ===== src/Json/Interface.antt =====
-- The libraries that the service calls and does not implement: nlohmann::json
-- (storage-core/third_party/nlohmann/json.hpp) and OpenSSL's SHA-256.
use iot_devices_ledger_audit.Prelude.{
  ℕ, ◌≡◌, ◌≢◌, ◌<◌, ◌^◌, Bool, true, List, none, some, Result, ok, err, length, All,
}
use iot_devices_ledger_audit.Prelude.Bytes.{Bytes, is_ascii, lookup}

-- An error is the message of the `nlohmann::json::exception`.
pub record Library : Type 1 where
  pub Json : Type 0
  pub null : Json
  pub of_bool : Bool → Json
  pub of_uint : ℕ → Json
  pub of_str : Bytes → Json
  pub of_list : List Json → Json
  pub of_fields : List (Bytes × Json) → Json
  pub dump : Json → Result Bytes Bytes
  pub parse : Bytes → Result Bytes Json
  pub at : Json → Bytes → Result Bytes Json
  pub get_str : Json → Result Bytes Bytes
  pub get_uint : Json → Result Bytes ℕ
  -- The 32 bytes that `EVP_DigestFinal_ex` returns for the bytes of one `EVP_DigestUpdate`.
  pub sha256 : Bytes → Bytes

module _ (lib : Library) where
  open lib use {
    Json, null, of_bool, of_uint, of_str, of_list, of_fields, dump, parse, at, get_str, get_uint,
    sha256,
  }

  -- What the libraries' documentation promises. A value `IsExact` when a dump keeps it: it holds
  -- no NaN, no infinity and no binary value, as no parsed value does.
  pub record Laws : Type 1 where
    pub IsExact : Json → Type 0
    pub at_fields :
        (fs : List (Bytes × Json)) (k : Bytes) (v : Json)
        → lookup k fs ≡ some v
        → at (of_fields fs) k ≡ ok v
    pub get_str_of : (s : Bytes) → get_str (of_str s) ≡ ok s
    pub get_uint_of : (n : ℕ) → n < 2 ^ 64 → get_uint (of_uint n) ≡ ok n
    pub exact_uint : (n : ℕ) → n < 2 ^ 64 → IsExact (of_uint n)
    pub exact_str : (s : Bytes) → IsExact (of_str s)
    pub exact_fields :
        (fs : List (Bytes × Json)) → All (λ f. IsExact (f.1)) fs → IsExact (of_fields fs)
    pub exact_parse : (s : Bytes) (j : Json) → parse s ≡ ok j → IsExact j
    -- A dump without indentation is one line, which parses back.
    pub parse_dump : (j : Json) (s : Bytes) → IsExact j → dump j ≡ ok s → parse s ≡ ok j
    pub dump_line : (j : Json) (s : Bytes) → dump j ≡ ok s → All (λ c. c ≢ 10) s
    pub sha256_length : (s : Bytes) → length (sha256 s) ≡ 32
    pub sha256_bytes : (s : Bytes) → All (λ b. b < 256) (sha256 s)

  -- What it says of a name that is not there, and of the values that a dump takes: it throws just
  -- for those with a text that is not UTF-8.
  pub record FeedLaws : Type 1 where
    pub absent :
        (fs : List (Bytes × Json)) (k : Bytes)
        → lookup k fs ≡ none
        → (m : Bytes) × (at (of_fields fs) k ≡ err m)
    pub IsPlain : Json → Type 0
    pub plain_null : IsPlain null
    pub plain_bool : (b : Bool) → IsPlain (of_bool b)
    pub plain_uint : (n : ℕ) → n < 2 ^ 64 → IsPlain (of_uint n)
    pub plain_str : (s : Bytes) → All (λ c. c < 128) s → IsPlain (of_str s)
    pub plain_fields :
        (fs : List (Bytes × Json))
        → All (λ f. (is_ascii (f.0) ≡ true) × IsPlain (f.1)) fs
        → IsPlain (of_fields fs)
    pub plain_list : (js : List Json) → All IsPlain js → IsPlain (of_list js)
    pub plain_dump : (j : Json) (s : Bytes) → dump j ≡ ok s → IsPlain j
    pub dump_plain : (j : Json) → IsPlain j → (s : Bytes) × (dump j ≡ ok s)
