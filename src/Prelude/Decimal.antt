-- ===== src/Prelude/Decimal.antt =====
-- Decimal numerals: `std::to_string` of an unsigned number, and the value of a string of digits.
use Prim.Native.Nat.{ℕ, zero, suc, ◌+◌, ◌-◌, ◌*◌, ◌/◌, ◌%◌, ◌<◌, ◌≤◌}
use mathlib.Core.Path.{◌≡◌, refl, ap, ◌∙◌}
use mathlib.Core.Bool.{Bool, true, ◌&&◌}
use mathlib.Core.Logic.{inl, inr}
use mathlib.Core.List.{[], ◌∷◌}
use native.Mathlib.Omega.{arith}
use iot_devices_ledger_audit.Prelude.Tests.{ltb, leb, if◌then◌else◌, Bool-cases}
use iot_devices_ledger_audit.Prelude.Lists.{length, All}
use iot_devices_ledger_audit.Prelude.Bytes.{Bytes}

unfoldable pub is_digit : ℕ → Bool
is_digit c = leb 48 c && leb c 57

-- The digits of `n`, written in front of `acc`, on fuel.
unfoldable pub print : ℕ → ℕ → Bytes → Bytes
print zero n acc = acc
print (suc fuel) n acc =
    let rest = print fuel (n / 10) ((48 + n % 10) ∷ acc) in
    if ltb n 10 then (48 + n) ∷ acc else rest

-- The fuel is enough: `n + 1` rounds for a number that falls by a factor of ten in each.
unfoldable pub to_string : ℕ → Bytes
unfolding print
to_string n = print (suc n) n []

-- The value of a string of digits, from left to right.
unfoldable pub value : ℕ → Bytes → ℕ
value n [] = n
value n (c ∷ cs) = value (n * 10 + (c - 48)) cs

unfoldable pub all_digits : Bytes → Bool
all_digits [] = true
all_digits (c ∷ cs) = is_digit c && all_digits cs

-- Enough fuel prints a numeral that reads back, whatever stands behind it.
pub value-print : (fuel n : ℕ) (acc : Bytes) → n < fuel → value 0 (print fuel n acc) ≡ value n acc
unfolding value print
value-print zero n acc h = absurd (omega arith)
value-print (suc fuel) n acc h = elim (Bool-cases (ltb n 10)) [
  | inl small ↦ rw small (ap (λ k. value k acc) (omega arith))
  | inr large ↦ rw large (
      value-print fuel (n / 10) ((48 + n % 10) ∷ acc) (ground arith)
      ∙ ap (λ k. value k acc) (omega arith))
]

pub value-to_string : (n : ℕ) → value 0 (to_string n) ≡ n
unfolding to_string value
value-to_string n = value-print (suc n) n [] (omega arith)

pub all_digits-print :
    (fuel n : ℕ) (acc : Bytes) → all_digits acc ≡ true → all_digits (print fuel n acc) ≡ true
unfolding all_digits print is_digit
all_digits-print zero n acc h = h
all_digits-print (suc fuel) n acc h = elim (Bool-cases (ltb n 10)) [
  | inl small ↦ rw small (ground arith)
  | inr large ↦ rw large (all_digits-print fuel (n / 10) ((48 + n % 10) ∷ acc) (ground arith))
]

pub all_digits-to_string : (n : ℕ) → all_digits (to_string n) ≡ true
unfolding to_string all_digits
all_digits-to_string n = all_digits-print (suc n) n [] refl

pub all_digits-ascii : (s : Bytes) → all_digits s ≡ true → All (λ c. c < 128) s
unfolding all_digits is_digit
all_digits-ascii [] h = tt
all_digits-ascii (c ∷ cs) h = (ground arith, all_digits-ascii cs (ground arith))

length-print : (fuel n : ℕ) (acc : Bytes) → length acc ≤ length (print fuel n acc)
unfolding print
length-print zero n acc = omega arith
length-print (suc fuel) n acc = ground (arith, length-print fuel (n / 10) ((48 + n % 10) ∷ acc))

pub to_string-pos : (n : ℕ) → 0 < length (to_string n)
unfolding to_string
to_string-pos n = ground (arith, length-print n (n / 10) ((48 + n % 10) ∷ []))
