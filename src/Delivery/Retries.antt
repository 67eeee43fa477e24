-- ===== src/Delivery/Retries.antt =====
-- The retries of src/app/usecases/dispatch.py: how often a job is sent, and how long it waits.
use abrio.Prelude.{
  ℕ, zero, suc, ◌+◌, ◌*◌, ◌^◌, ◌<◌, ◌≤◌, min, ◌≡◌, refl, ap, ◌∙◌, inl, inr, true, false, not,
  Option, none, some, Text, leb, arith,
}
use abrio.Domain.Enums.{DispatchJobStatus, ProviderOutcome}
use abrio.Domain.Errors.{Error}
use abrio.Database.Table.{find, save}
use abrio.Database.Rows.{Message, DispatchJob, Database, message_key, job_key}
use abrio.Database.Session.{ok, >>=-eq-ok, or_raise-ok, branch-ok, branch, pure, ◌>>=◌, ◌>>◌}
use abrio.Database.Constraints.{update_message}
use abrio.Repositories.Balances
use abrio.Repositories.Jobs
use abrio.Repositories.Jobs.{second}
use abrio.Repositories.Messages
use abrio.UseCases.Dispatch.{
  DispatchSettings, Clock, ProviderResult, Recorded, permanently_fail, complete, schedule_retry,
  record_success, record_permanent, record_temporary, record_result, record_job, record_tx,
  holds_lease, calculate_backoff, express_deadline_exceeded, error_or, attempts_error,
  retry_deadline_error, temporary_error, permanent_error, recorded,
}
use abrio.Delivery.Leases.{find-save_found}

min_left : (n : ℕ) → n < 6 → min n 6 ≡ n
min_left n h = omega arith

min_right : (n : ℕ) → 6 ≤ n → min n 6 ≡ 6
min_right n h = omega arith

small : (n jitter : ℕ) → n < 6 → min 60 (2 ^ n) * second + jitter ≡ 2 ^ n * second + jitter
small zero jitter h = refl
small (suc zero) jitter h = refl
small (suc (suc zero)) jitter h = refl
small (suc (suc (suc zero))) jitter h = refl
small (suc (suc (suc (suc zero)))) jitter h = refl
small (suc (suc (suc (suc (suc zero))))) jitter h = refl
small (suc (suc (suc (suc (suc (suc n)))))) jitter h = absurd (omega arith)

-- The wait before the n-th retry is 2 ^ n seconds plus the jitter below the sixth retry, and 60
-- seconds plus the jitter from the sixth on.
pub calculate_backoff_lem :
    (n jitter : ℕ)
    → (n < 6 → calculate_backoff n jitter ≡ 2 ^ n * second + jitter)
      × (6 ≤ n → calculate_backoff n jitter ≡ 60 * second + jitter)
unfolding calculate_backoff
calculate_backoff_lem n jitter = (
  λ h. ap (λ k. min 60 (2 ^ k) * second + jitter) (min_left n h) ∙ small n jitter h,
  λ h. ap (λ k. min 60 (2 ^ k) * second + jitter) (min_right n h),
)

-- The job waits for another attempt, which the limit still allows.
abbrev Retried :
    DispatchSettings → Clock → ℕ → ProviderResult → DispatchJob → Database → Database → Type 0
Retried s c jitter result j db db' =
    (j.delivery_attempts + 1 < s.max_delivery_attempts)
    × (db'.jobs
        ≡ save job_key
            (Jobs.mark_delivery_retry c.written_at (error_or result.error temporary_error)
              (calculate_backoff (j.delivery_attempts + 1) jitter) j)
            db.jobs)

module _ (j : DispatchJob) (m : Message) (db db' : Database) (r : Recorded) where
  permanent-final :
      (c : Clock) (error : Text)
      → record_permanent c error j m db ≡ ok (some r, db')
      → r.retry_scheduled ≡ false
  unfolding record_permanent
  permanent-final c error h =
      let (x, mid, first, last) =
        >>=-eq-ok (permanently_fail j m error c.written_at)
          (λ _. pure (recorded m ProviderOutcome.permanent_failure false)) db h in
      ground arith

  success-final :
      (c : Clock) (p : Option Text)
      → record_success c p j m db ≡ ok (some r, db')
      → r.retry_scheduled ≡ false
  unfolding record_success complete
  success-final c none h = cc
  success-final c (some p) h =
      let (x, mid, first, last) =
        >>=-eq-ok (Balances.settle m.user_id m.cost)
          (λ _.
            update_message (Messages.mark_sent m)
            >> Jobs.mark_completed c.written_at p j
            >> pure (recorded m ProviderOutcome.success false))
          db h in
      ground arith

  temporary-Retried :
      (s : DispatchSettings) (c : Clock) (jitter : ℕ) (result : ProviderResult)
      → r.retry_scheduled ≡ true
      → record_temporary s c jitter result j m db ≡ ok (some r, db')
      → Retried s c jitter result j db db'
  unfolding record_temporary schedule_retry
  temporary-Retried s c jitter result again h =
      let delay = calculate_backoff (j.delivery_attempts + 1) jitter in
      let retry = schedule_retry c (error_or result.error temporary_error) delay j m in
      let late =
        branch (express_deadline_exceeded s c.deadline_at delay m)
          (record_permanent c retry_deadline_error j m) retry in
      elim (branch-ok db (leb s.max_delivery_attempts (j.delivery_attempts + 1))
        (record_permanent c (error_or result.error attempts_error) j m) late h) [
          | inl (_, x) ↦
              absurd
                (ground (arith, permanent-final c (error_or result.error attempts_error) x, again))
          | inr (more, y) ↦
              elim (branch-ok db (express_deadline_exceeded s c.deadline_at delay m)
                (record_permanent c retry_deadline_error j m) retry y) [
                  | inl (_, x) ↦
                      absurd (ground (arith, permanent-final c retry_deadline_error x, again))
                  | inr (_, x) ↦ (ground (arith, more), ground arith)
                ]
        ]

  result-Retried :
      (s : DispatchSettings) (c : Clock) (jitter : ℕ) (result : ProviderResult)
      (outcome : ProviderOutcome)
      → r.retry_scheduled ≡ true
      → record_result s c jitter result outcome j m db ≡ ok (some r, db')
      → Retried s c jitter result j db db'
  unfolding record_result
  result-Retried s c jitter result ProviderOutcome.success again h =
      absurd (ground (arith, success-final c result.provider_message_id h, again))
  result-Retried s c jitter result ProviderOutcome.permanent_failure again h =
      absurd (ground (arith, permanent-final c (error_or result.error permanent_error) h, again))
  result-Retried s c jitter result ProviderOutcome.temporary_failure again h =
      temporary-Retried s c jitter result again h

job-Retried :
    (s : DispatchSettings) (c : Clock) (jitter w : ℕ) (result : ProviderResult)
    (o : Option DispatchJob) (db db' : Database) (r : Recorded)
    → record_job s c jitter result w o db ≡ ok (some r, db')
    → r.retry_scheduled ≡ true
    → (j : DispatchJob) × (o ≡ some j) × Retried s c jitter result j db db'
unfolding record_job Messages.get_for_update
job-Retried s c jitter w result none db db' r h again = cc
job-Retried s c jitter w result (some j) db db' r h again =
    elim (branch-ok db (not (holds_lease w j)) (pure none)
      (Messages.get_for_update j.message_id
        >>= (λ m. record_result s c jitter result result.outcome j m))
      h) [
        | inl (_, x) ↦ cc
        | inr (_, x) ↦
            let (m, _, y) =
              or_raise-ok db (find message_key j.message_id db.messages)
                (Error.message_not_found j.message_id)
                (λ m. record_result s c jitter result result.outcome j m) x in
            (j, refl, result-Retried j m db db' r s c jitter result result.outcome again y)
      ]

-- If a record schedules a retry, the job had attempts left under the limit, and its row then waits
-- in retry without an owner, has one delivery attempt more and the same retry count, and is due
-- after the backoff of that attempt.
pub record_tx-retry :
    (s : DispatchSettings) (c : Clock) (jitter job_id worker_id : ℕ) (result : ProviderResult)
    (db db' : Database) (r : Recorded)
    → record_tx s c jitter job_id worker_id result db ≡ ok (some r, db')
    → r.retry_scheduled ≡ true
    → (j j' : DispatchJob) × (find job_key job_id db.jobs ≡ some j)
      × (find job_key job_id db'.jobs ≡ some j')
      × (j.delivery_attempts + 1 < s.max_delivery_attempts)
      × (j'.status ≡ DispatchJobStatus.retry)
      × (j'.locked_by ≡ none)
      × (j'.delivery_attempts ≡ j.delivery_attempts + 1)
      × (j'.retry_count ≡ j.retry_count)
      × (j'.available_at ≡ c.written_at + calculate_backoff (j.delivery_attempts + 1) jitter)
unfolding record_tx Jobs.get_for_update Jobs.mark_delivery_retry
record_tx-retry s c jitter i w result db db' r h again =
    let (j, hj, (more, e)) =
      job-Retried s c jitter w result (find job_key i db.jobs) db db' r h again in
    let j' =
      Jobs.mark_delivery_retry c.written_at (error_or result.error temporary_error)
        (calculate_backoff (j.delivery_attempts + 1) jitter) j in
    (
      j,
      j',
      hj,
      ap (find job_key i) e ∙ find-save_found i j j' db.jobs hj refl,
      more,
      refl,
      refl,
      refl,
      refl,
      refl,
    )
