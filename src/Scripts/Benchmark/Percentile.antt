-- ===== src/Scripts/Benchmark/Percentile.antt =====
-- The percentiles that scripts/benchmark.py reports.
use native.Mathlib.Nat.{mul-le-mul_left}
use abrio.Prelude.{
  ℕ, zero, suc, ◌-◌, ◌≤◌, ◌<◌, ◌≡◌, inl, inr, min, List, [], ◌∷◌, All, All-imply, length, leb,
  Bool-cases, leb→le, arith,
}
use abrio.Repositories.Claim.{sort_by, insert_by}
use abrio.Repositories.Order.{All-of_sort_by}
use abrio.Scripts.Benchmark.{nth, rank, pct, latency_stats}

abbrev pub Ascending : List ℕ → Type 0
Ascending [] = Unit
Ascending (v ∷ values) = All (λ x. v ≤ x) values × Ascending values

All-insert :
    (a v : ℕ) (values : List ℕ)
    → a ≤ v
    → All (λ x. a ≤ x) values
    → All (λ x. a ≤ x) (insert_by leb v values)
unfolding insert_by
All-insert a v [] h k = (h, tt)
All-insert a v (x ∷ values) h k = elim (Bool-cases (leb v x)) [
  | inl e ↦ rw e (h, k)
  | inr n ↦ rw n (k.0, All-insert a v values h k.1)
]

insert-Ascending : (v : ℕ) (values : List ℕ) → Ascending values → Ascending (insert_by leb v values)
unfolding insert_by
insert-Ascending v [] h = (tt, tt)
insert-Ascending v (x ∷ values) h = elim (Bool-cases (leb v x)) [
  | inl e ↦
      let le = leb→le v x e in
      rw e ((le, All-imply (λ y. x ≤ y) (λ y. v ≤ y) values (λ y k. omega arith) h.0), h)
  | inr n ↦ rw n (All-insert x v values (ground arith) h.0, insert-Ascending v values h.1)
]

pub sort-Ascending : (values : List ℕ) → Ascending (sort_by leb values)
unfolding sort_by
sort-Ascending [] = tt
sort-Ascending (v ∷ values) = insert-Ascending v (sort_by leb values) (sort-Ascending values)

nth-All :
    (v j : ℕ) (values : List ℕ) → All (λ x. v ≤ x) values → j < length values → v ≤ nth j values
nth-All v j [] h k = absurd (omega arith)
nth-All v zero (x ∷ values) h k = h.0
nth-All v (suc j) (x ∷ values) h k = nth-All v j values h.1 (omega arith)

nth-le :
    (i j : ℕ) (values : List ℕ)
    → Ascending values
    → i ≤ j
    → j < length values
    → nth i values ≤ nth j values
nth-le i j [] h le k = absurd (omega arith)
nth-le zero zero (v ∷ values) h le k = omega arith
nth-le zero (suc j) (v ∷ values) h le k = nth-All v j values h.0 (omega arith)
nth-le (suc i) zero (v ∷ values) h le k = absurd (omega arith)
nth-le (suc i) (suc j) (v ∷ values) h le k = nth-le i j values h.1 (omega arith) (omega arith)

All-nth :
    (m : ℕ) (values : List ℕ)
    → Ascending values
    → suc m ≡ length values
    → All (λ v. v ≤ nth m values) values
All-nth m [] h e = tt
All-nth zero (v ∷ []) h e = (omega arith, tt)
All-nth zero (v ∷ x ∷ values) h e = absurd (omega (arith, e))
All-nth (suc m) (v ∷ values) h e =
    (nth-All v m values h.0 (omega (arith, e)), All-nth m values h.1 (omega (arith, e)))

All-nth_last :
    (values : List ℕ) → Ascending values → All (λ v. v ≤ nth (length values - 1) values) values
All-nth_last [] h = tt
All-nth_last (v ∷ values) h = All-nth (length (v ∷ values) - 1) (v ∷ values) h (omega arith)

-- A higher percentile is no smaller.
pct-le : (values : List ℕ) (p q : ℕ) → Ascending values → p ≤ q → pct values p ≤ pct values q
unfolding pct
pct-le [] p q h le = omega arith
pct-le (v ∷ values) p q h le =
    let n = length (v ∷ values) in
    nth-le (min (n - 1) (rank n p - 1)) (min (n - 1) (rank n q - 1)) (v ∷ values) h
      (omega (arith, mul-le-mul_left n le)) (omega arith)

pct-le-last :
    (values : List ℕ) (p : ℕ) → Ascending values → pct values p ≤ nth (length values - 1) values
unfolding pct
pct-le-last [] p h = omega arith
pct-le-last (v ∷ values) p h =
    let n = length (v ∷ values) in
    nth-le (min (n - 1) (rank n p - 1)) (n - 1) (v ∷ values) h (omega arith) (omega arith)

-- The percentiles rise with their number, and none is above the greatest latency.
pub record IsOrdered (latencies : List ℕ) : Type 0 where
  pub p50_p75 : (latency_stats latencies).p50 ≤ (latency_stats latencies).p75
  pub p75_p90 : (latency_stats latencies).p75 ≤ (latency_stats latencies).p90
  pub p90_p95 : (latency_stats latencies).p90 ≤ (latency_stats latencies).p95
  pub p95_p99 : (latency_stats latencies).p95 ≤ (latency_stats latencies).p99
  pub p99_maximum : (latency_stats latencies).p99 ≤ (latency_stats latencies).maximum
  pub all_maximum : All (λ v. v ≤ (latency_stats latencies).maximum) latencies

-- The percentiles of any latencies are in order.
latency_stats-IsOrdered : (latencies : List ℕ) → IsOrdered latencies
unfolding latency_stats
latency_stats-IsOrdered latencies =
    let values = sort_by leb latencies in
    let h = sort-Ascending latencies in
    record {
      p50_p75 = pct-le values 50 75 h (omega arith);
      p75_p90 = pct-le values 75 90 h (omega arith);
      p90_p95 = pct-le values 90 95 h (omega arith);
      p95_p99 = pct-le values 95 99 h (omega arith);
      p99_maximum = pct-le-last values 99 h;
      all_maximum =
          All-of_sort_by leb (λ v. v ≤ nth (length values - 1) values) latencies
            (All-nth_last values h);
    }
