-- ===== src/Outbox/Publishing.antt =====
-- `publish_claimed_jobs` of src/infra/workers/dispatch_relay.py: which jobs count as published, and
-- which rows of the table the record of it may change.
use abrio.Prelude.{
  ℕ, ◌≡◌, refl, ap, ◌∙◌, inl, inr, Bool, true, false, ◌&&◌, some, List, [], ◌∷◌, ◌++◌, Text, All,
  ◌==◌, Bool-cases, arith,
}
use abrio.Database.Table.{find}
use abrio.Database.Rows.{DispatchJob, job_key}
use abrio.Repositories.Jobs
use abrio.Repositories.Jobs.{update_where, is_owner, is_waiting, still_claimed}
use abrio.UseCases.Dispatch.{calculate_backoff}
use abrio.Relay.{ClaimedJob, publish_each, claimed_ids, record_published, highest_retry_count}
use abrio.Ledger.Operations.{find-update}

-- What the broker did with the jobs of a batch.
abbrev pub Stops : (ℕ → Bool) → List ClaimedJob → Type 0
Stops accepts [] = Unit
Stops accepts (j ∷ jobs) = accepts j.id ≡ false

-- The published ids and the ids of the failed jobs together are those of the batch in order; the
-- broker accepted every published one, and refused the first failed one, if there is one.
publish_each_lem :
    (accepts : ℕ → Bool) (jobs : List ClaimedJob)
    → ((publish_each accepts jobs).0 ++ claimed_ids (publish_each accepts jobs).1
        ≡ claimed_ids jobs)
      × All (λ i. accepts i ≡ true) (publish_each accepts jobs).0
      × Stops accepts (publish_each accepts jobs).1
unfolding publish_each
publish_each_lem accepts [] = (refl, tt, tt)
publish_each_lem accepts (j ∷ jobs) =
    let (same, good, stop) = publish_each_lem accepts jobs in
    elim (Bool-cases (accepts j.id)) [
      | inl e ↦ rw e (ap (λ is. j.id ∷ is) same, (e, good), stop)
      | inr e ↦ rw e (refl, tt, e)
    ]

update_where-skips :
    (p : DispatchJob → Bool) (f : DispatchJob → DispatchJob) (k : ℕ) (j : DispatchJob)
    (js : List DispatchJob)
    → ((x : DispatchJob) → (f x).id ≡ x.id)
    → find job_key k js ≡ some j
    → p j ≡ false
    → find job_key k (update_where p f js) ≡ some j
update_where-skips p f k j [] ids h n = cc
update_where-skips p f k j (x ∷ js) ids h n = elim (Bool-cases (x.id == k)) [
  | inl e ↦
      let ex : x ≡ j = ground arith in let px : p x ≡ false = ap p ex ∙ n in rw (px, e) (ap some ex)
  | inr other ↦
      let rest = update_where-skips p f k j js ids (ground arith) n in ground (arith, ids x)
]

not_claimed :
    (job_ids : List ℕ) (relay_id : ℕ) (j : DispatchJob)
    → (is_owner j.locked_by relay_id && is_waiting j.status) ≡ false
    → still_claimed job_ids relay_id j ≡ false
unfolding still_claimed
not_claimed job_ids relay_id j h = ground arith

mark_published-skips :
    (job_ids : List ℕ) (relay_id now k : ℕ) (j : DispatchJob) (js : List DispatchJob)
    → find job_key k js ≡ some j
    → (is_owner j.locked_by relay_id && is_waiting j.status) ≡ false
    → find job_key k (Jobs.mark_published job_ids relay_id now js) ≡ some j
unfolding Jobs.mark_published
mark_published-skips is o now k j js h n =
    update_where-skips (still_claimed is o) (Jobs.set_published now) k j js (λ x. refl) h
      (not_claimed is o j n)

-- The relay's record of a batch leaves alone every job that the relay does not own or that does
-- not wait any more, as one that a worker has taken meanwhile.
record_published-skips :
    (relay_id jitter now now' : ℕ) (error : Text) (published : List ℕ) (failed : List ClaimedJob)
    (k : ℕ) (j : DispatchJob) (js : List DispatchJob)
    → find job_key k js ≡ some j
    → (is_owner j.locked_by relay_id && is_waiting j.status) ≡ false
    → find job_key k (record_published relay_id jitter now now' error published failed js) ≡ some j
unfolding record_published Jobs.mark_publish_retry
record_published-skips o jitter now now' error is [] k j js h n =
    mark_published-skips is o now k j js h n
record_published-skips o jitter now now' error is (f ∷ fs) k j js h n =
    let delay = calculate_backoff (highest_retry_count (f ∷ fs)) jitter in
    update_where-skips (still_claimed (claimed_ids (f ∷ fs)) o)
      (Jobs.set_publish_retry now' error delay) k j (Jobs.mark_published is o now js) (λ x. refl)
      (mark_published-skips is o now k j js h n) (not_claimed (claimed_ids (f ∷ fs)) o j n)

abbrev SameBudget : ℕ → DispatchJob → List DispatchJob → Type 0
SameBudget k x js =
    (j : DispatchJob) × (find job_key k js ≡ some j)
    × (x.delivery_attempts ≡ j.delivery_attempts)
    × (x.message_id ≡ j.message_id)

update-budget :
    (p : DispatchJob → Bool) (f : DispatchJob → DispatchJob) (k : ℕ) (x : DispatchJob)
    (js : List DispatchJob)
    → ((y : DispatchJob) → (f y).id ≡ y.id)
    → ((y : DispatchJob) → (f y).message_id ≡ y.message_id)
    → ((y : DispatchJob) → (f y).delivery_attempts ≡ y.delivery_attempts)
    → find job_key k (update_where p f js) ≡ some x
    → SameBudget k x js
update-budget p f k x js ids links counts h =
    let (j, hj, e) = find-update p f ids links k x js h in
    elim (Bool-cases (p j)) [
      | inl yes_p ↦
          let ef : x ≡ f j = ground arith in
          (j, hj, ap (λ z. z.delivery_attempts) ef ∙ counts j, ap (λ z. z.message_id) ef ∙ links j)
      | inr no_p ↦
          let ej : x ≡ j = ground arith in
          (j, hj, ap (λ z. z.delivery_attempts) ej, ap (λ z. z.message_id) ej)
    ]

-- Every row after the relay's record of a batch was there before with the same message and the
-- same number of delivery attempts.
pub record_published-budget :
    (relay_id jitter now now' : ℕ) (error : Text) (published : List ℕ) (failed : List ClaimedJob)
    (k : ℕ) (x : DispatchJob) (js : List DispatchJob)
    → find job_key k (record_published relay_id jitter now now' error published failed js) ≡ some x
    → (j : DispatchJob) × (find job_key k js ≡ some j)
      × (x.delivery_attempts ≡ j.delivery_attempts)
      × (x.message_id ≡ j.message_id)
unfolding record_published Jobs.mark_published Jobs.mark_publish_retry
record_published-budget o jitter now now' error is [] k x js h =
    update-budget (still_claimed is o) (Jobs.set_published now) k x js (λ y. refl) (λ y. refl)
      (λ y. refl) h
record_published-budget o jitter now now' error is (f ∷ fs) k x js h =
    let delay = calculate_backoff (highest_retry_count (f ∷ fs)) jitter in
    let (y, hy, ay, my) =
      update-budget (still_claimed (claimed_ids (f ∷ fs)) o)
        (Jobs.set_publish_retry now' error delay) k x (Jobs.mark_published is o now js) (λ z. refl)
        (λ z. refl) (λ z. refl) h in
    let (j, hj, aj, mj) =
      update-budget (still_claimed is o) (Jobs.set_published now) k y js (λ z. refl) (λ z. refl)
        (λ z. refl) hy in
    (j, hj, ay ∙ aj, my ∙ mj)
