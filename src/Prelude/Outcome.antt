-- ===== src/Prelude/Outcome.antt =====
-- Calls that return a value or throw.
use mathlib.Core.Path.{◌≡◌, refl, ap, sym}
use mathlib.Core.Logic.{◌⊎◌, inl, inr}

pub data Result {ℓ κ} (E : Type ℓ) (A : Type κ) : Type (ℓ ⊔ κ) where
  ok : A → Result E A
  err : E → Result E A

-- An exception skips what follows it.
infixl 5 ◌>>=◌
abbrev pub ◌>>=◌ {ℓ κ} : {E A : Type ℓ} {B : Type κ} → Result E A → (A → Result E B) → Result E B
err thrown >>= next = err thrown
ok value >>= next = next value

-- `try { r } catch (e) { throw h(e) }`
abbrev pub map_err {ℓ κ} : {E F : Type ℓ} {A : Type κ} → (E → F) → Result E A → Result F A
map_err h (ok a) = ok a
map_err h (err e) = err (h e)

pub Result-cases {ℓ κ} :
    {E : Type ℓ} {A : Type κ} (r : Result E A) → ((a : A) × (r ≡ ok a)) ⊎ ((e : E) × (r ≡ err e))
Result-cases (ok a) = inl (a, refl)
Result-cases (err e) = inr (e, refl)

-- Where a sequence of two calls returns, both do.
pub >>=-eq-ok {ℓ κ} :
    {E A : Type ℓ} {B : Type κ} (first : Result E A) (next : A → Result E B) {out : B}
    → (first >>= next) ≡ ok out
    → (mid : A) × (first ≡ ok mid) × (next mid ≡ ok out)
>>=-eq-ok (err thrown) next h = cc
>>=-eq-ok (ok mid) next h = (mid, refl, h)

pub ok_inj {ℓ κ} : {E : Type ℓ} {A : Type κ} {a b : A} → ◌≡◌ {A = Result E A} (ok a) (ok b) → a ≡ b
ok_inj h = cc

pub err_inj {ℓ κ} :
    {E : Type ℓ} {A : Type κ} {a b : E} → ◌≡◌ {A = Result E A} (err a) (err b) → a ≡ b
err_inj h = cc

pub >>=-eq-err {ℓ κ} :
    {E A : Type ℓ} {B : Type κ} (m : Result E A) (f : A → Result E B) {e : E}
    → (m >>= f) ≡ err e
    → (m ≡ err e) ⊎ ((a : A) × (m ≡ ok a) × (f a ≡ err e))
>>=-eq-err (ok a) f h = inr (a, refl, h)
>>=-eq-err (err e) f h = inl (ap err (err_inj h))

pub map_err-eq-err {ℓ κ} :
    {E F : Type ℓ} {A : Type κ} (h : E → F) (r : Result E A) {f : F}
    → map_err h r ≡ err f
    → (e : E) × (r ≡ err e) × (f ≡ h e)
map_err-eq-err h (ok a) p = absurd (cc p)
map_err-eq-err h (err e) p = (e, refl, sym (err_inj p))

pub map_err-eq-ok {ℓ κ} :
    {E F : Type ℓ} {A : Type κ} (h : E → F) (r : Result E A) {a : A} → map_err h r ≡ ok a → r ≡ ok a
map_err-eq-ok h (ok b) p = ap ok (ok_inj p)
map_err-eq-ok h (err e) p = absurd (cc p)
