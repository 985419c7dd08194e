-- ===== src/Broadcast/Ids.antt =====
-- Lists of distinct cell numbers.
use iot_devices_ledger_audit.Prelude.{
  ℕ, ◌≤◌, ◌<◌, ◌≡◌, refl, Bool, true, false, ◌||◌, List, [], ◌∷◌, ◌++◌, All, ◌==◌, arith,
}

unfoldable pub mem : ℕ → List ℕ → Bool
mem x [] = false
mem x (w ∷ ws) = (w == x) || mem x ws

abbrev pub Distinct : List ℕ → Type 0
Distinct [] = Unit {0}
Distinct (w ∷ ws) = (mem w ws ≡ false) × Distinct ws

pub same : (w id : ℕ) → (w == id) ≡ true → w ≡ id
same w id h = ground arith

pub mem-append : (x : ℕ) (ws : List ℕ) (w : ℕ) → mem x (ws ++ w ∷ []) ≡ mem x ws || (w == x)
unfolding mem
mem-append x [] w = ground arith
mem-append x (v ∷ ws) w = ground (arith, mem-append x ws w)

pub Distinct-append :
    (ws : List ℕ) (w : ℕ) → Distinct ws → All (λ v. v < w) ws → Distinct (ws ++ w ∷ [])
unfolding mem
Distinct-append [] w d a = (refl, tt)
Distinct-append (v ∷ ws) w d a =
    (ground (arith, mem-append v ws w, a.0, d.0), Distinct-append ws w d.1 a.1)

pub All-weaken : (m n : ℕ) (ws : List ℕ) → m ≤ n → All (λ w. w < m) ws → All (λ w. w < n) ws
All-weaken m n [] h a = tt
All-weaken m n (w ∷ ws) h a = (omega arith, All-weaken m n ws h a.1)
