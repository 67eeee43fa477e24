-- ===== src/Delivery/Outcomes.antt =====
-- The second transaction of src/app/usecases/dispatch.py, `_record_outcome`: which worker may record
-- an outcome.
use abrio.Prelude.{
  ℕ, ltb, length, ◌+◌, ◌≡◌, refl, ap, ◌∙◌, inl, inr, false, not, Option, none, some, Text, leb,
  Option-cases, arith, Bool-cases,
}
use abrio.Prelude.Int.{ℤ}
use abrio.Domain.Enums.{DispatchJobStatus, ProviderOutcome, job_status_eq}
use abrio.Domain.Errors.{Error}
use abrio.Database.Table.{find, save}
use abrio.Database.Rows.{Balance, Message, DispatchJob, Database, balance_key, message_key, job_key}
use abrio.Database.Session.{ok, >>=-eq-ok, or_raise-ok, branch-ok, branch, pure, ◌>>=◌, ◌>>◌}
use abrio.Database.Constraints.{update_balance, update_message, update_job}
use abrio.Repositories.Balances
use abrio.Repositories.Jobs
use abrio.Repositories.Messages
use abrio.UseCases.Dispatch.{
  DispatchSettings, Clock, ProviderResult, Recorded, permanently_fail, complete, schedule_retry,
  record_success, record_permanent, record_temporary, record_result, record_job, record_tx,
  holds_lease, calculate_backoff, express_deadline_exceeded, error_or, attempts_error,
  retry_deadline_error, temporary_error, permanent_error, recorded,
}
use abrio.Ledger.Accounts.{settled, released, update_balance_sound}
use abrio.Delivery.Leases.{find-save_found}

-- A result that a worker brings for a job it does not hold in dispatching is dropped without a
-- write.
record_tx-lost :
    (s : DispatchSettings) (c : Clock) (jitter job_id worker_id : ℕ) (result : ProviderResult)
    (db : Database) (j : DispatchJob)
    → find job_key job_id db.jobs ≡ some j
    → holds_lease worker_id j ≡ false
    → record_tx s c jitter job_id worker_id result db ≡ ok (none, db)
unfolding record_tx record_job Jobs.get_for_update
record_tx-lost s c jitter job_id worker_id result db j hj lost = rw (hj, lost)

update_balance-jobs :
    (b : Balance) (db db' : Database) → update_balance b db ≡ ok (tt, db') → db'.jobs ≡ db.jobs
update_balance-jobs b db db' h =
    let (_, _, _, e) = update_balance_sound b db db' h in ap (λ D. D.jobs) e

release-jobs :
    (u : ℕ) (a : ℤ) (db db' : Database) (r : Balance)
    → Balances.release_credits u a db ≡ ok (r, db')
    → db'.jobs ≡ db.jobs
unfolding Balances.release_credits
release-jobs u a db db' r h = elim (Option-cases (find balance_key u db.balances)) [
  | inl missing ↦ ground arith
  | inr (b, hb) ↦ update_balance-jobs (released b a) db db' (ground arith)
]

settle-jobs :
    (u : ℕ) (a : ℤ) (db db' : Database) (r : Balance)
    → Balances.settle u a db ≡ ok (r, db')
    → db'.jobs ≡ db.jobs
unfolding Balances.settle
settle-jobs u a db db' r h = elim (Option-cases (find balance_key u db.balances)) [
  | inl missing ↦ ground arith
  | inr (b, hb) ↦ update_balance-jobs (settled b a) db db' (ground arith)
]

-- What the recording of an outcome does to the job: a row that is no longer in flight.
abbrev Ends : DispatchJob → Database → Database → Type 0
Ends j db db' =
    (j' : DispatchJob) × (j'.id ≡ j.id)
    × (job_status_eq j'.status DispatchJobStatus.dispatching ≡ false)
    × (db'.jobs ≡ save job_key j' db.jobs)

module _ (j : DispatchJob) (m : Message) (db db' : Database) where
  permanently_fail-Ends :
      (error : Text) (now : ℕ) (x : Unit {0})
      → permanently_fail j m error now db ≡ ok (x, db')
      → Ends j db db'
  unfolding permanently_fail Jobs.mark_failed
  permanently_fail-Ends error now x h =
      let (r, mid, first, last) =
        >>=-eq-ok (Balances.release_credits m.user_id m.cost)
          (λ _.
            update_message (Messages.mark_permanent_failure m)
            >> update_job (Jobs.mark_failed now error j))
          db h in
      (
        Jobs.mark_failed now error j,
        refl,
        refl,
        ground arith
            ∙ ap (save job_key (Jobs.mark_failed now error j))
                (release-jobs m.user_id m.cost db mid r first),
      )

  complete-Ends :
      (c : Clock) (p : Text) (o : Option Recorded)
      → complete c p j m db ≡ ok (o, db')
      → Ends j db db'
  unfolding complete Jobs.mark_completed
  complete-Ends c p o h =
      let (r, mid, first, last) =
        >>=-eq-ok (Balances.settle m.user_id m.cost)
          (λ _.
            update_message (Messages.mark_sent m)
            >> Jobs.mark_completed c.written_at p j
            >> pure (recorded m ProviderOutcome.success false))
          db h in
      elim (Bool-cases (ltb 255 (length p))) [
        | inl long ↦ absurd (ground (arith, last, long))
        | inr fits ↦ (
          Jobs.completed c.written_at p j,
          refl,
          refl,
          ground (arith, fits)
              ∙ ap (save job_key (Jobs.completed c.written_at p j))
                  (settle-jobs m.user_id m.cost db mid r first),
        )
      ]

  record_success-Ends :
      (c : Clock) (p : Option Text) (o : Option Recorded)
      → record_success c p j m db ≡ ok (o, db')
      → Ends j db db'
  unfolding record_success
  record_success-Ends c none o h = cc
  record_success-Ends c (some p) o h = complete-Ends c p o h

  record_permanent-Ends :
      (c : Clock) (error : Text) (o : Option Recorded)
      → record_permanent c error j m db ≡ ok (o, db')
      → Ends j db db'
  unfolding record_permanent
  record_permanent-Ends c error o h =
      let (x, mid, first, last) =
        >>=-eq-ok (permanently_fail j m error c.written_at)
          (λ _. pure (recorded m ProviderOutcome.permanent_failure false)) db h in
      permanently_fail-Ends error c.written_at x (ground arith)

  schedule_retry-Ends :
      (c : Clock) (error : Text) (delay : ℕ) (o : Option Recorded)
      → schedule_retry c error delay j m db ≡ ok (o, db')
      → Ends j db db'
  unfolding schedule_retry Jobs.mark_delivery_retry
  schedule_retry-Ends c error delay o h =
      (Jobs.mark_delivery_retry c.written_at error delay j, refl, refl, ground arith)

  record_temporary-Ends :
      (s : DispatchSettings) (c : Clock) (jitter : ℕ) (result : ProviderResult)
      (o : Option Recorded)
      → record_temporary s c jitter result j m db ≡ ok (o, db')
      → Ends j db db'
  unfolding record_temporary
  record_temporary-Ends s c jitter result o h =
      let delay = calculate_backoff (j.delivery_attempts + 1) jitter in
      let late =
        branch (express_deadline_exceeded s c.deadline_at delay m)
          (record_permanent c retry_deadline_error j m)
          (schedule_retry c (error_or result.error temporary_error) delay j m) in
      elim (branch-ok db (leb s.max_delivery_attempts (j.delivery_attempts + 1))
        (record_permanent c (error_or result.error attempts_error) j m) late h) [
          | inl (_, x) ↦ record_permanent-Ends c (error_or result.error attempts_error) o x
          | inr (_, y) ↦
              elim (branch-ok db (express_deadline_exceeded s c.deadline_at delay m)
                (record_permanent c retry_deadline_error j m)
                (schedule_retry c (error_or result.error temporary_error) delay j m) y) [
                  | inl (_, x) ↦ record_permanent-Ends c retry_deadline_error o x
                  | inr (_, x) ↦
                      schedule_retry-Ends c (error_or result.error temporary_error) delay o x
                ]
        ]

  record_result-Ends :
      (s : DispatchSettings) (c : Clock) (jitter : ℕ) (result : ProviderResult)
      (outcome : ProviderOutcome) (o : Option Recorded)
      → record_result s c jitter result outcome j m db ≡ ok (o, db')
      → Ends j db db'
  unfolding record_result
  record_result-Ends s c jitter result ProviderOutcome.success o h =
      record_success-Ends c result.provider_message_id o h
  record_result-Ends s c jitter result ProviderOutcome.permanent_failure o h =
      record_permanent-Ends c (error_or result.error permanent_error) o h
  record_result-Ends s c jitter result ProviderOutcome.temporary_failure o h =
      record_temporary-Ends s c jitter result o h

record_job-Ends :
    (s : DispatchSettings) (c : Clock) (jitter w : ℕ) (result : ProviderResult)
    (o : Option DispatchJob) (db db' : Database) (r : Recorded)
    → record_job s c jitter result w o db ≡ ok (some r, db')
    → (j : DispatchJob) × (o ≡ some j) × Ends j db db'
unfolding record_job Messages.get_for_update
record_job-Ends s c jitter w result none db db' r h = cc
record_job-Ends s c jitter w result (some j) db db' r h =
    elim (branch-ok db (not (holds_lease w j)) (pure none)
      (Messages.get_for_update j.message_id
        >>= (λ m. record_result s c jitter result result.outcome j m))
      h) [
        | inl (_, x) ↦ cc
        | inr (_, x) ↦
            let (m, _, y) =
              or_raise-ok db (find message_key j.message_id db.messages)
                (Error.message_not_found j.message_id)
                (λ m. record_result s c jitter result result.outcome j m) x in
            (j, refl, record_result-Ends j m db db' s c jitter result result.outcome (some r) y)
      ]

-- After an outcome of a job is recorded, the next record for the job on the database that is left
-- writes nothing, whoever brings it and whatever the result.
pub record_tx-once :
    (s s' : DispatchSettings) (c c' : Clock) (jitter jitter' job_id a b : ℕ)
    (result result' : ProviderResult) (db db' : Database) (r : Recorded)
    → record_tx s c jitter job_id a result db ≡ ok (some r, db')
    → record_tx s' c' jitter' job_id b result' db' ≡ ok (none, db')
unfolding record_tx Jobs.get_for_update
record_tx-once s s' c c' jitter jitter' i a b result result' db db' r h =
    let (j, hj, (j', id, st, e)) =
      record_job-Ends s c jitter a result (find job_key i db.jobs) db db' r h in
    record_tx-lost s' c' jitter' i b result' db' j'
      (ap (find job_key i) e ∙ find-save_found i j j' db.jobs hj id) (ground arith)
