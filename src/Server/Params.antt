-- ===== src/Server/Params.antt =====
-- `parse_index` of storage-core/src/server.cpp: which query parameters it accepts.
use iot_devices_ledger_audit.Prelude.{
  ℕ, ◌^◌, ◌<◌, ◌≡◌, refl, sym, ap, ◌∙◌, ◌⊎◌, inl, inr, true, false, not, ◌||◌, [], ◌∷◌, ◌++◌, none,
  some, ok, err, Bool-cases, some_inj, leb, Option-cases, is_empty, length, arith,
}
use iot_devices_ledger_audit.Prelude.Bytes.{Bytes, bytes}
use iot_devices_ledger_audit.Prelude.Decimal.{
  all_digits, value, to_string, value-to_string, all_digits-to_string, to_string-pos,
}
use iot_devices_ledger_audit.Error.{api_error}
use iot_devices_ledger_audit.Server.Index.{Request, index_of, parse_index}

-- A parameter that is a 64-bit number: one or more digits and nothing else, of value below 2^64.
pub record IsIndex (text : Bytes) : Type 0 where
  pub non_empty : is_empty text ≡ false
  pub digits : all_digits text ≡ true
  pub fits : value 0 text < 2 ^ 64

index_of-cases :
    (name text : Bytes)
    → (IsIndex text × (index_of name text ≡ ok (value 0 text)))
      ⊎ ((¬ IsIndex text) × ((m : Bytes) × (index_of name text ≡ err (api_error 400 m))))
unfolding index_of
index_of-cases name text = elim (Bool-cases (is_empty text || not (all_digits text))) [
  | inl bad ↦ inr (
    (λ v. absurd (ground (arith, v.non_empty, v.digits))),
    (name ++ bytes " must be a non-negative integer", ground arith),
  )
  | inr good ↦ elim (Bool-cases (leb (2 ^ 64) (value 0 text))) [
    | inl large ↦
        inr
          ((λ v. absurd (ground (arith, v.fits))), (name ++ bytes " is out of range", ground arith))
    | inr small ↦ inl (
      record { non_empty = ground arith; digits = ground arith; fits = ground arith },
      ground arith,
    )
  ]
]

-- An absent parameter gives the fallback; a present one gives its value exactly when it is a number
-- of 64 bits, and otherwise a 400: nothing is read in part, and nothing wraps.
pub parse_index-cases :
    (req : Request) (name : Bytes) (fallback : ℕ)
    → ((req.param name ≡ none) × (parse_index req name fallback ≡ ok fallback))
      ⊎ ((text : Bytes) × (req.param name ≡ some text)
          × ((IsIndex text × (parse_index req name fallback ≡ ok (value 0 text)))
              ⊎ ((¬ IsIndex text)
                  × ((m : Bytes) × (parse_index req name fallback ≡ err (api_error 400 m))))))
unfolding parse_index
parse_index-cases req name fallback = elim (Option-cases (req.param name)) [
  | inl e ↦ inl (e, rw (e, parse_index))
  | inr (text, e) ↦ inr (text, e, rw (e, parse_index) (index_of-cases name text))
]

is_empty-length : (s : Bytes) → 0 < length s → is_empty s ≡ false
is_empty-length [] h = absurd (omega arith)
is_empty-length (c ∷ s) h = refl

-- The decimal text of a 64-bit number is read back as that number.
pub parse_index-to_string :
    (req : Request) (name : Bytes) (fallback n : ℕ)
    → n < 2 ^ 64
    → req.param name ≡ some (to_string n)
    → parse_index req name fallback ≡ ok n
parse_index-to_string req name fallback n h e = elim (parse_index-cases req name fallback) [
  | inl (x, _) ↦ absurd (cc (e, x))
  | inr (text, x, inl (v, p)) ↦ p ∙ ap ok (ap (value 0) (some_inj (sym x ∙ e)) ∙ value-to_string n)
  | inr (text, x, inr (bad, _)) ↦ absurd (
      bad (
        rw (some_inj (sym x ∙ e)) (record {
          non_empty = is_empty-length (to_string n) (to_string-pos n);
          digits = all_digits-to_string n;
          fits = rw value-to_string h;
        })))
]
