-- ===== src/Server/Slice.antt =====
-- GET /blocks of storage-core/src/server.cpp: which blocks a range selects.
use iot_devices_ledger_audit.Prelude.{
  ℕ, zero, suc, ◌+◌, ◌-◌, ◌%◌, ◌^◌, ◌≤◌, ◌<◌, min, ◌≡◌, refl, ap, ◌∙◌, ◌⊎◌, inl, inr, List, [], ◌∷◌,
  ok, err, length, take, drop, get_elem?, length-take, length-drop, ltb, Bool-cases, false, ltb→lt,
  arith,
}
use iot_devices_ledger_audit.Prelude.Bytes.{Bytes}
use iot_devices_ledger_audit.Error.{api_error}
use iot_devices_ledger_audit.Server.Handlers.{invalid_range, select}

last_position : (n : ℕ) → 0 < n → n < 2 ^ 64 → (n + 2 ^ 64 - 1) % 2 ^ 64 ≡ n - 1
last_position n h k = omega arith

not_outside : (to from : ℕ) → ltb to from ≡ false → from ≤ to
not_outside to from h = ground arith

module _ {ℓ} {A : Type ℓ} where
  get_elem?-take : (n i : ℕ) (xs : List A) → i < n → get_elem? (take n xs) i ≡ get_elem? xs i
  get_elem?-take zero i xs h = absurd (omega arith)
  get_elem?-take (suc n) i [] h = refl
  get_elem?-take (suc n) zero (x ∷ xs) h = refl
  get_elem?-take (suc n) (suc i) (x ∷ xs) h = get_elem?-take n i xs (omega arith)

  get_elem?-drop : (n i : ℕ) (xs : List A) → get_elem? (drop n xs) i ≡ get_elem? xs (n + i)
  get_elem?-drop zero i xs = ap (get_elem? xs) (omega arith)
  get_elem?-drop (suc n) i [] = refl
  get_elem?-drop (suc n) i (x ∷ xs) =
      get_elem?-drop n i xs ∙ ap (get_elem? (x ∷ xs)) {x = suc (n + i)} (omega arith)

  -- On a chain of at least one and fewer than 2^64 blocks, the end of the range is clamped to the
  -- last position. A range that starts at or before its clamped end gives the chain's length and the
  -- blocks of the positions `from` to `to`, both included, in order; any other is a 400.
  pub select_lem :
      (xs : List A) (from to_requested : ℕ)
      → 0 < length xs
      → length xs < 2 ^ 64
      → let to = min to_requested (length xs - 1) in
        ((from ≤ to)
          × ((slice : List A) × (select xs from to_requested ≡ ok (slice, length xs))
              × (length slice ≡ to - from + 1)
              × ((i : ℕ) → from + i ≤ to → get_elem? slice i ≡ get_elem? xs (from + i))))
        ⊎ ((to < from) × ((m : Bytes) × (select xs from to_requested ≡ err (api_error 400 m))))
  unfolding select
  select_lem xs from to_requested pos fits =
      rw (last_position (length xs) pos fits) (elim (Bool-cases (ltb to from)) [
        | inl outside ↦ inr (ltb→lt to from outside, (invalid_range from to, rw outside))
        | inr inside ↦ inl (
          ground arith,
          (
            take (to - from + 1) (drop from xs),
            rw inside,
            omega (
              arith,
              length-take (to - from + 1) (drop from xs),
              length-drop from xs,
              not_outside to from inside,
            ),
            (λ i h.
                get_elem?-take (to - from + 1) i (drop from xs) (omega arith)
                ∙ get_elem?-drop from i xs),
          ),
        )
      ])
    where
      to : ℕ
      to = min to_requested (length xs - 1)
