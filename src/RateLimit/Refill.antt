-- ===== src/RateLimit/Refill.antt =====
-- The tokens of a bucket between two runs of the script of src/api/rate_limit.py, with one clock for
-- the callers and for Redis.
use native.Mathlib.Nat.{mul-le-mul_right}
use abrio.Prelude.{
  ℕ, ◌+◌, ◌-◌, ◌*◌, ◌≤◌, ◌≡◌, refl, inl, inr, some, none, Option, ltb, Bool-cases, arith,
}
use abrio.RateLimit.Rules.{RateLimitRule, ttl_milliseconds}
use abrio.RateLimit.Bucket.{Bucket, alive, capacity, refilled, token}

-- A bucket as the script leaves it.
abbrev pub IsKept : RateLimitRule → ℕ → Option Bucket → Type 0
IsKept r now none = Unit
IsKept r now (some b) =
    (b.updated_at ≤ now) × (b.expires_at ≡ b.updated_at + ttl_milliseconds r * 1000)

-- The bucket holds no more than the refill of its time to live.
abbrev pub Outlives : RateLimitRule → Type 0
Outlives r = r.burst ≤ 2 * r.limit

full_by_then :
    (r : RateLimitRule) (e : ℕ)
    → Outlives r
    → r.window * 2 * 1000 * 1000 ≤ e
    → capacity r ≤ e * r.limit
full_by_then r e out late =
    let a : r.burst * token r ≤ (2 * r.limit) * token r = mul-le-mul_right (token r) out in
    let b : (r.window * 2 * 1000 * 1000) * r.limit ≤ e * r.limit = mul-le-mul_right r.limit late in
    omega (arith, a, b)

refilled-some :
    (r : RateLimitRule) (now now' : ℕ) (b : Bucket)
    → now ≤ now'
    → refilled r now' (some b) ≤ refilled r now (some b) + (now' - now) * r.limit
refilled-some r now now' b h =
    let e : ℕ = now' - b.updated_at in
    let f : ℕ = now - b.updated_at in
    let split : e ≤ f + (now' - now) = omega arith in
    let m : e * r.limit ≤ (f + (now' - now)) * r.limit = mul-le-mul_right r.limit split in
    omega (arith, m)

pub refilled-capacity :
    (r : RateLimitRule) (now : ℕ) (o : Option Bucket) → refilled r now o ≤ capacity r
refilled-capacity r now none = omega arith
refilled-capacity r now (some b) = omega arith

-- With one clock and a burst of at most twice the limit, a bucket that the script left and that
-- has expired holds the same tokens as it would if it had not.
pub alive-refilled :
    (r : RateLimitRule) (now now' : ℕ) (o : Option Bucket)
    → Outlives r
    → IsKept r now o
    → now ≤ now'
    → refilled r now' (alive now' o) ≡ refilled r now' o
unfolding ttl_milliseconds
alive-refilled r now now' none out k h = refl
alive-refilled r now now' (some b) out k h = elim (Bool-cases (ltb now' b.expires_at)) [
  | inl e ↦ rw e
  | inr e ↦
      let late : r.window * 2 * 1000 * 1000 ≤ now' - b.updated_at = ground (arith, k.1) in
      let full = full_by_then r (now' - b.updated_at) out late in rw e (omega (arith, full))
]

-- In a time the tokens grow by its refill at most.
pub refilled_later :
    (r : RateLimitRule) (now now' : ℕ) (o : Option Bucket)
    → now ≤ now'
    → refilled r now' o ≤ refilled r now o + (now' - now) * r.limit
refilled_later r now now' none h = omega arith
refilled_later r now now' (some b) h = refilled-some r now now' b h
