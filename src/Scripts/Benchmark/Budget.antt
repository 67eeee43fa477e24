-- ===== src/Scripts/Benchmark/Budget.antt =====
-- What the workers of scripts/benchmark.py submit together.
use abrio.Prelude.{
  ℕ, zero, suc, ◌+◌, ◌-◌, ◌≤◌, ◌<◌, ◌≡◌, inl, inr, min, List, [], ◌∷◌, All, ◌==◌, Bool-cases, arith,
}
use abrio.Scripts.Benchmark.{claims}

abbrev pub sum : List ℕ → ℕ
sum [] = 0
sum (n ∷ ns) = n + sum ns

-- A batch that is neither empty nor too large.
abbrev pub IsBatch : ℕ → ℕ → Type 0
IsBatch size n = (0 < n) × (n ≤ size)

-- The workers submit the whole budget in batches that are neither empty nor too large.
claims-sum :
    (size remaining fuel : ℕ)
    → 0 < size
    → remaining ≤ fuel
    → (sum (claims fuel size remaining) ≡ remaining)
      × All (IsBatch size) (claims fuel size remaining)
unfolding claims
claims-sum size remaining zero h enough = (omega arith, tt)
claims-sum size remaining (suc fuel) h enough = elim (Bool-cases (min size remaining == 0)) [
  | inl e ↦ rw e (ground arith, tt)
  | inr n ↦
      let (total, batches) =
        claims-sum size (remaining - min size remaining) fuel h (ground arith) in
      rw n (omega (arith, total), ((ground arith, omega arith), batches))
]
