-- ===== src/Config/Address.antt =====
-- The addresses that storage-core/include/config.hpp accepts.
use iot_devices_ledger_audit.Prelude.{
  ℕ, ◌+◌, ◌<◌, ◌^◌, ◌≡◌, refl, sym, ap, ◌∙◌, true, false, [], ◌∷◌, ◌++◌, Option, none, some, ok,
  err, Result-cases, err_inj, >>=-eq-err, inl, inr, Option-cases, drop, length, arith,
  take-length-append, drop-append_cons,
}
use iot_devices_ledger_audit.Prelude.Bytes.{Bytes}
use iot_devices_ledger_audit.Prelude.Decimal.{
  is_digit, value, to_string, all_digits, value-to_string, all_digits-to_string, to_string-pos,
}
use iot_devices_ledger_audit.Prelude.Int.{ℤ, pos}
use iot_devices_ledger_audit.Error.{Exception, invalid_argument}
use iot_devices_ledger_audit.Config.Defs.{
  rfind, skip_spaces, take_digits, to_int32, read_sign, stoi, parse_address, split_at, load_config,
}

-- The text does not go on with a digit.
abbrev pub EndsNumber : Bytes → Type 0
EndsNumber [] = Unit {0}
EndsNumber (c ∷ cs) = is_digit c ≡ false

rfind-digits : (ds : Bytes) → all_digits ds ≡ true → rfind b':' ds ≡ none
unfolding rfind all_digits is_digit
rfind-digits [] h = refl
rfind-digits (d ∷ ds) h = ground (arith, rfind-digits ds)

rfind-append-none :
    (s t : Bytes) → rfind b':' s ≡ none → rfind b':' t ≡ none → rfind b':' (s ++ t) ≡ none
unfolding rfind
rfind-append-none [] t h k = k
rfind-append-none (c ∷ s) t h k = ground (arith, rfind-append-none s t)

rfind-append : (s t : Bytes) → rfind b':' t ≡ none → rfind b':' (s ++ b':' ∷ t) ≡ some (length s)
unfolding rfind
rfind-append [] t h = ground arith
rfind-append (c ∷ s) t h = ground (arith, rfind-append s t h)

take_digits-append :
    (ds rest : Bytes) → all_digits ds ≡ true → EndsNumber rest → take_digits (ds ++ rest) ≡ ds
unfolding take_digits all_digits
take_digits-append [] [] h k = refl
take_digits-append [] (c ∷ rest) h k = ground arith
take_digits-append (d ∷ ds) rest h k = ground (arith, take_digits-append ds rest)

skip_spaces-digit : (d : ℕ) (s : Bytes) → is_digit d ≡ true → skip_spaces (d ∷ s) ≡ d ∷ s
unfolding skip_spaces is_digit
skip_spaces-digit d s h = ground arith

read_sign-digit :
    (d : ℕ) (s : Bytes)
    → is_digit d ≡ true
    → read_sign (d ∷ s) ≡ to_int32 false (take_digits (d ∷ s))
unfolding read_sign is_digit
read_sign-digit d s h = ground arith

to_int32-small :
    (d : ℕ) (ds : Bytes)
    → value 0 (d ∷ ds) < 2 ^ 31
    → to_int32 false (d ∷ ds) ≡ ok (pos (value 0 (d ∷ ds)))
unfolding to_int32
to_int32-small d ds h = ground arith

all_digits-head : (d : ℕ) (ds : Bytes) → all_digits (d ∷ ds) ≡ true → is_digit d ≡ true
unfolding all_digits
all_digits-head d ds h = ground arith

-- A numeral below 2^31 is read, whatever follows its digits.
stoi-digits :
    (ds rest : Bytes)
    → 0 < length ds
    → all_digits ds ≡ true
    → EndsNumber rest
    → value 0 ds < 2 ^ 31
    → stoi (ds ++ rest) ≡ ok (pos (value 0 ds))
unfolding stoi
stoi-digits [] rest p h k v = absurd (omega arith)
stoi-digits (d ∷ ds) rest p h k v =
    let digit = all_digits-head d ds h in
    ap read_sign (skip_spaces-digit d (ds ++ rest) digit)
    ∙ read_sign-digit d (ds ++ rest) digit
    ∙ ap (to_int32 false) (take_digits-append (d ∷ ds) rest h k)
    ∙ to_int32-small d ds v

stoi-to_string :
    (port : ℕ) (rest : Bytes)
    → port < 2 ^ 31
    → EndsNumber rest
    → stoi (to_string port ++ rest) ≡ ok (pos port)
stoi-to_string port rest h k =
    stoi-digits (to_string port) rest (to_string-pos port) (all_digits-to_string port) k
      (rw value-to_string h)
    ∙ ap (λ n. ok (pos n)) (value-to_string port)

split_at-port :
    (variable host rest : Bytes) (port : ℤ)
    → stoi rest ≡ ok port
    → split_at variable (host ++ b':' ∷ rest) (length host) ≡ ok (host, port)
unfolding split_at
split_at-port variable host rest port h =
    rw (take-length-append host (b':' ∷ rest), drop-append_cons host rest b':', h)

-- An address `host:port` gives its host, which may hold colons itself, and its port, if the port
-- fits an `int`; text behind the port is accepted and ignored, if it begins with no digit and
-- holds no colon.
pub parse_address-port :
    (variable host rest : Bytes) (port : ℕ)
    → port < 2 ^ 31
    → EndsNumber rest
    → rfind b':' rest ≡ none
    → parse_address variable (host ++ b':' ∷ (to_string port ++ rest)) ≡ ok (host, pos port)
unfolding parse_address
parse_address-port variable host rest port h k n =
    rw
      (
        rfind-append host (to_string port ++ rest) (
            rfind-append-none (to_string port) rest
              (rfind-digits (to_string port) (all_digits-to_string port)) n),
        parse_address,
      )
      (split_at-port variable host _ (pos port) (stoi-to_string port rest h k))

split_at-error :
    (variable addr : Bytes) (c : ℕ) (e : Exception)
    → split_at variable addr c ≡ err e
    → (m : Bytes) × (e ≡ invalid_argument m)
unfolding split_at
split_at-error variable addr c e h = elim (Result-cases (stoi (drop (c + 1) addr))) [
  | inl (p, x) ↦ absurd (ground arith)
  | inr (x, p) ↦ (_, sym (err_inj (rw (p, split_at) at h)))
]

parse_address-error :
    (variable addr : Bytes) (e : Exception)
    → parse_address variable addr ≡ err e
    → (m : Bytes) × (e ≡ invalid_argument m)
unfolding parse_address
parse_address-error variable addr e h = elim (Option-cases (rfind b':' addr)) [
  | inl x ↦ (_, sym (err_inj (rw (x, parse_address) at h)))
  | inr (c, x) ↦ split_at-error variable addr c e (rw (x, parse_address) at h)
]

-- A configuration is refused with `std::invalid_argument` only.
load_config-error :
    (env : Bytes → Option Bytes) (e : Exception)
    → load_config env ≡ err e
    → (m : Bytes) × (e ≡ invalid_argument m)
unfolding load_config
load_config-error env e h = elim (>>=-eq-err (parse_address _ _) _ h) [
  | inl p ↦ parse_address-error _ _ e p
  | inr (b, _, q) ↦ elim (>>=-eq-err (parse_address _ _) _ q) [
    | inl p ↦ parse_address-error _ _ e p
    | inr (w, _, r) ↦ absurd (cc r)
  ]
]
