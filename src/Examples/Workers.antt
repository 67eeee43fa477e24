-- ===== src/Examples/Workers.antt =====
-- The leases and the retries on one job.
use abrio.Prelude.{◌+◌, ◌<◌, ◌≡◌, refl, none, some, codes, true, false, arith}
use abrio.Prelude.Int.{pos, ◌-ℤ◌}
use abrio.Domain.Enums.{MessageStatus, PaymentStatus, DispatchJobStatus, ProviderOutcome}
use abrio.Database.Table.{find}
use abrio.Database.Rows.{DispatchJob, Database, job_key}
use abrio.Database.Session.{ok}
use abrio.Database.Constraints.{update_balance}
use abrio.Repositories.Balances
use abrio.Repositories.Jobs
use abrio.Repositories.Jobs.{second}
use abrio.Repositories.Messages
use abrio.UseCases.Dispatch.{
  Claim, Recorded, claim, claim_job, claim_message, decide_claim, hand_out, is_claimable,
  express_deadline_exceeded, context_of, record_tx, record_job, record_result, record_success,
  record_temporary, schedule_retry, complete, calculate_backoff, metric_of,
}
use abrio.Delivery.Leases.{claim-claim}
use abrio.Delivery.Outcomes.{record_tx-once}
use abrio.Delivery.Retries.{record_tx-retry}
use abrio.Examples.Data.{
  account, message, published_job, sending_job, with, settings, clock, delivered, unreachable,
}

abbrev published_db : Database
published_db =
    with (account (pos 1000) (pos 50)) (message MessageStatus.queued PaymentStatus.reserved)
      published_job

abbrev sending_db : Database
sending_db =
    with (account (pos 1000) (pos 50)) (message MessageStatus.dispatching PaymentStatus.reserved)
      sending_job

claim_run :
    claim settings (clock 3000) 200 9 published_db
    ≡ ok (
      Claim.claimed (context_of (message MessageStatus.queued PaymentStatus.reserved)),
      sending_db,
    )
unfolding claim claim_job claim_message decide_claim hand_out is_claimable express_deadline_exceeded
    Jobs.get_for_update Jobs.mark_dispatching Messages.get_for_update Messages.mark_dispatching
claim_run = refl

claim-claim_example : claim settings (clock 4000) 200 10 sending_db ≡ ok (Claim.nothing, sending_db)
claim-claim_example =
    claim-claim settings (clock 3000) (clock 4000) 200 9 10 published_db sending_db
      (context_of (message MessageStatus.queued PaymentStatus.reserved)) claim_run (omega arith)

abbrev done_job : DispatchJob
done_job = record sending_job {
  status = DispatchJobStatus.completed;
  provider_message_id = some (codes "p-1");
  completed_at = some 5002;
  locked_at = none;
  locked_by = none;
}

abbrev done_db : Database
done_db =
    with (account (pos 950) (pos 0)) (message MessageStatus.sent PaymentStatus.deducted) done_job

abbrev success : Recorded
success = record {
  metric =
      metric_of (message MessageStatus.dispatching PaymentStatus.reserved) ProviderOutcome.success;
  retry_scheduled = false;
}

record_run :
    record_tx settings (clock 5000) 0 200 9 delivered sending_db ≡ ok (some success, done_db)
unfolding record_tx record_job record_result record_success complete Jobs.get_for_update
    Jobs.mark_completed Messages.get_for_update Messages.mark_sent Balances.settle update_balance
    ◌-ℤ◌
record_run = refl

record_tx-once_example :
    record_tx settings (clock 6000) 0 200 9 unreachable done_db ≡ ok (none, done_db)
record_tx-once_example =
    record_tx-once settings settings (clock 5000) (clock 6000) 0 0 200 9 9 delivered unreachable
      sending_db done_db success record_run

abbrev waiting_job : DispatchJob
waiting_job = record sending_job {
  status = DispatchJobStatus.retry;
  delivery_attempts = 1;
  available_at = 5002 + 2000007;
  locked_at = none;
  locked_by = none;
  last_error = some (codes "down");
}

abbrev waiting_db : Database
waiting_db =
    with (account (pos 1000) (pos 50)) (message MessageStatus.failed PaymentStatus.reserved)
      waiting_job

abbrev again : Recorded
again = record {
  metric =
      metric_of (message MessageStatus.dispatching PaymentStatus.reserved)
        ProviderOutcome.temporary_failure;
  retry_scheduled = true;
}

retry_run :
    record_tx settings (clock 5000) 7 200 9 unreachable sending_db ≡ ok (some again, waiting_db)
unfolding record_tx record_job record_result record_temporary schedule_retry calculate_backoff
    express_deadline_exceeded Jobs.get_for_update Jobs.mark_delivery_retry Messages.get_for_update
    Messages.mark_retryable_failure
retry_run = refl

record_tx-retry_example :
    (j j' : DispatchJob) × (find job_key 200 sending_db.jobs ≡ some j)
    × (find job_key 200 waiting_db.jobs ≡ some j')
    × (j.delivery_attempts + 1 < 3)
    × (j'.status ≡ DispatchJobStatus.retry)
    × (j'.locked_by ≡ none)
    × (j'.delivery_attempts ≡ j.delivery_attempts + 1)
    × (j'.retry_count ≡ j.retry_count)
    × (j'.available_at ≡ 5002 + calculate_backoff (j.delivery_attempts + 1) 7)
record_tx-retry_example =
    record_tx-retry settings (clock 5000) 7 200 9 unreachable sending_db waiting_db again retry_run
      refl
