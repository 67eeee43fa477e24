-- ===== src/Monitor/Backlog.antt =====
-- The backlog gauges of src/core/metrics.py against the jobs that a relay finds
-- (src/infra/db/repositories/dispatch_jobs.py, `claim_batch`).
use abrio.Prelude.{
  count, ℕ, zero, sym, suc, ◌≡◌, refl, ap, ◌∙◌, inl, inr, ◌≤◌, ◌-◌, Bool, List, [], ◌∷◌, All,
  All-imply, Option-cases, arith, keep, length, map, take,
}
use abrio.Domain.Enums.{MessagePriority}
use abrio.Database.Rows.{DispatchJob}
use abrio.Repositories.Claim.{
  eligible, candidates, older_first, lock_for, claim_batch, select_batch, fair_pass, topup_pass,
}
use abrio.Repositories.Order.{length-sort_by}
use abrio.Monitor.Collect.{is_ready, collect_dispatch_ready_metrics, oldest, age}

take_nil : (n : ℕ) → take {A = DispatchJob} n [] ≡ []
take_nil zero = refl
take_nil (suc n) = refl

nil-length : (js : List DispatchJob) → length js ≡ 0 → js ≡ []
nil-length [] h = refl
nil-length (j ∷ js) h = absurd (omega arith)

module _ (p : MessagePriority) (now : ℕ) where
  is_ready-eligible : (j : DispatchJob) → is_ready p now j ≡ eligible p now 60 j
  unfolding is_ready eligible
  is_ready-eligible j = ground arith

  keep_ready : (js : List DispatchJob) → keep (is_ready p now) js ≡ keep (eligible p now 60) js
  keep_ready [] = refl
  keep_ready (j ∷ js) = rw (is_ready-eligible j, keep_ready js) refl

  newest-le :
      (j : DispatchJob) (js : List DispatchJob) → now - j.created_at ≤ age now (oldest (j ∷ js))
  newest-le j js = elim (Option-cases (oldest js)) [
    | inl e ↦ rw e (omega arith)
    | inr (t, e) ↦ rw e (ground arith)
  ]

  age-cons :
      (j : DispatchJob) (js : List DispatchJob) → age now (oldest js) ≤ age now (oldest (j ∷ js))
  age-cons j js = elim (Option-cases (oldest js)) [
    | inl e ↦ rw e (omega arith)
    | inr (t, e) ↦ rw e (ground arith)
  ]

  oldest-le : (js : List DispatchJob) → All (λ j. now - j.created_at ≤ age now (oldest js)) js
  oldest-le [] = tt
  oldest-le (j ∷ js) = (
    newest-le j js,
    All-imply (λ k. now - k.created_at ≤ age now (oldest js))
        (λ k. now - k.created_at ≤ age now (oldest (j ∷ js))) js
        (λ k h. omega (arith, h, age-cons j js)) (oldest-le js),
  )

  nothing_to_claim :
      (relay_id limit per_user_limit : ℕ) (locked : ℕ → Bool) (js : List DispatchJob)
      → candidates p now 60 js ≡ []
      → (claim_batch p relay_id limit 60 per_user_limit locked now js).0 ≡ []
  unfolding claim_batch select_batch fair_pass topup_pass
  nothing_to_claim relay_id limit per_user_limit locked js e =
      rw e (ap (map (lock_for now relay_id)) (take_nil (limit - 0)))

-- The gauge of ready jobs is the number of jobs that a relay with a lease of 60 seconds finds at
-- the time, none of these is older than the gauge of the oldest age, and if the count is 0 every
-- such relay claims nothing.
pub collect_dispatch_ready_metrics_lem :
    (now : ℕ) (js : List DispatchJob) (p : MessagePriority)
    → let ready = collect_dispatch_ready_metrics now js p in
      (ready.jobs ≡ length (candidates p now 60 js))
      × All (λ j. now - j.created_at ≤ ready.oldest_age) (keep (eligible p now 60) js)
      × (ready.jobs ≡ 0
          → (relay_id limit per_user_limit : ℕ) (locked : ℕ → Bool)
          → (claim_batch p relay_id limit 60 per_user_limit locked now js).0 ≡ [])
unfolding collect_dispatch_ready_metrics candidates
collect_dispatch_ready_metrics_lem now js p =
    let found : count (is_ready p now) js ≡ length (candidates p now 60 js) =
      ap length (keep_ready p now js)
      ∙ sym (length-sort_by older_first (keep (eligible p now 60) js)) in
    (
      found,
      rw (keep_ready p now js) (oldest-le p now (keep (eligible p now 60) js)),
      λ h r l u k.
          nothing_to_claim p now r l u k js (nil-length (candidates p now 60 js) (sym found ∙ h)),
    )
