-- ===== src/Config/Costs.antt =====
-- The prices that src/core/config.py (`validate_cost`) lets through.
use native.Mathlib.Nat.{div-add-mod', mod-lt, one-le-pow}
use abrio.Prelude.{
  ℕ, zero, suc, ◌+◌, ◌*◌, ◌/◌, ◌%◌, ◌^◌, ◌≤◌, ◌<◌, ◌≡◌, refl, inl, inr, true, false, none, some,
  Bool-cases, ltb, arith,
}
use abrio.Config.{Decimal, round_half_down, quantize, validate_cost, is_not_positive}

-- What makes `x` the nearest to `m / d`, with a tie towards zero at one half.
abbrev pub Nearest : ℕ → ℕ → ℕ → Type 0
Nearest x m d =
    (2 * (x * d) ≤ 2 * m + d)
    × (2 * m ≤ 2 * (x * d) + d)
    × (2 * m ≤ d → x ≡ 0)
    × (x ≡ 0 → 2 * m ≤ d)

up-Nearest : (q r m d : ℕ) → q * d + r ≡ m → r < d → d < 2 * r → Nearest (q + 1) m d
up-Nearest q r m d e l h =
    (omega (arith, e), omega (arith, e), λ k. absurd (omega (arith, e)), λ k. absurd (omega arith))

down-Nearest : (q r m d : ℕ) → q * d + r ≡ m → 2 * r ≤ d → 0 < d → Nearest q m d
down-Nearest zero r m d e h p = (omega arith, omega (arith, e), λ k. refl, λ k. omega (arith, e))
down-Nearest (suc q) r m d e h p =
    (omega (arith, e), omega (arith, e), λ k. absurd (omega (arith, e)), λ k. absurd (omega arith))

round_half_down-Nearest : (m d : ℕ) → 0 < d → Nearest (round_half_down m d) m d
unfolding round_half_down
round_half_down-Nearest m d h = elim (Bool-cases (ltb d (2 * (m % d)))) [
  | inl e ↦
      rw e (up-Nearest (m / d) (m % d) m d (div-add-mod' m d) (mod-lt m h) (ground (arith, e)))
  | inr e ↦ rw e (down-Nearest (m / d) (m % d) m d (div-add-mod' m d) (ground (arith, e)) h)
]

-- The validator of a price refuses what is not positive and turns anything else into the nearest
-- number of cents, which is 0 exactly if the price is at most half a cent.
pub validate_cost_lem :
    (v : Decimal)
    → (is_not_positive v ≡ true → validate_cost v ≡ none)
      × (is_not_positive v ≡ false
          → (cents : ℕ) × (validate_cost v ≡ some cents)
            × Nearest cents (v.mantissa * 100) (10 ^ v.places))
unfolding validate_cost quantize
validate_cost_lem v = (
  λ e. rw e refl,
  λ e. (
    quantize v,
    rw e refl,
    round_half_down-Nearest (v.mantissa * 100) (10 ^ v.places)
        (one-le-pow v.places 10 (omega arith)),
  ),
)
