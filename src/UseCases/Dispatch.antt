-- ===== src/UseCases/Dispatch.antt =====
-- src/app/usecases/dispatch.py (`DispatchUseCase`): a worker claims a job in one transaction, calls
-- the provider, and records the outcome in a second one. Other transactions may run in between.
-- Log lines are left out.
use abrio.Prelude.{
  ℕ, ◌+◌, ◌*◌, ◌^◌, min, Bool, true, false, ◌&&◌, ◌||◌, not, Option, none, some, [], ◌∷◌, Text,
  codes, ltb, leb, if◌then◌else◌, is_some,
}
use abrio.Domain.Enums.{
  MessagePriority, PaymentStatus, DispatchJobStatus, ProviderOutcome, priority_eq, payment_eq,
  job_status_eq,
}
use abrio.Domain.Errors.{Error}
use abrio.Database.Rows.{Message, DispatchJob}
use abrio.Database.Session.{Result, ok, err, Tx, pure, raise, raise_if, branch, commit, ◌>>=◌, ◌>>◌}
use abrio.Database.Constraints.{update_message, update_job}
use abrio.Repositories.Balances
use abrio.Repositories.Messages
use abrio.Repositories.Jobs
use abrio.Repositories.Jobs.{second, is_owner, is_waiting}
use abrio.Metrics.{World, RetryType, record_delivery_outcome, record_dispatch_retry}

pub record ProviderResult : Type 0 where
  pub outcome : ProviderOutcome
  pub provider_message_id : Option Text
  pub error : Option Text

-- The arguments of `DispatchUseCase.__init__`.
pub record DispatchSettings : Type 0 where
  pub max_delivery_attempts : ℕ
  pub express_ttl_seconds : Option ℕ
  pub worker_lease_seconds : ℕ

-- The readings of the clock in one transaction and in the metric after it, in their order.
pub record Clock : Type 0 where
  pub checked_at : ℕ
  pub deadline_at : ℕ
  pub written_at : ℕ
  pub measured_at : ℕ

pub record DeliveryContext : Type 0 where
  pub message_id : ℕ
  pub recipient : Text
  pub body : Text
  pub priority : MessagePriority

pub record DeliveryMetric : Type 0 where
  pub priority : MessagePriority
  pub outcome : ProviderOutcome
  pub message_created_at : ℕ

abbrev pub is_terminal : DispatchJobStatus → Bool
is_terminal DispatchJobStatus.completed = true
is_terminal DispatchJobStatus.failed = true
is_terminal _ = false

-- `locked_at is not None and locked_at > now - lease`
abbrev pub is_fresh : Option ℕ → ℕ → ℕ → Bool
is_fresh none now seconds = false
is_fresh (some t) now seconds = ltb now (t + seconds * second)

unfoldable pub is_claimable : DispatchSettings → ℕ → DispatchJob → Bool
is_claimable s now job =
    if job_status_eq job.status DispatchJobStatus.dispatching
    then not (is_fresh job.locked_at now s.worker_lease_seconds)
    else job_status_eq job.status DispatchJobStatus.published
      || (is_waiting job.status && is_some job.locked_at && is_some job.locked_by)

-- `ahead` is in microseconds, as the other times.
abbrev pub exceeds : Option ℕ → ℕ → ℕ → Bool
exceeds none created_at time = false
exceeds (some ttl) created_at time = ltb (created_at + ttl * second) time

unfoldable pub express_deadline_exceeded : DispatchSettings → ℕ → ℕ → Message → Bool
express_deadline_exceeded s now ahead m =
    priority_eq m.priority MessagePriority.express
    && exceeds s.express_ttl_seconds m.created_at (now + ahead)

-- `random.uniform(0, 1)` is the argument `jitter`, in microseconds.
unfoldable pub calculate_backoff : ℕ → ℕ → ℕ
calculate_backoff retry_count jitter = min 60 (2 ^ min retry_count 6) * second + jitter

unfoldable pub permanently_fail : DispatchJob → Message → Text → ℕ → Tx (Unit {0})
permanently_fail job message error now = do
  Balances.release_credits message.user_id message.cost
  update_message (Messages.mark_permanent_failure message)
  update_job (Jobs.mark_failed now error job)

-- What the first transaction hands on.
pub data Claim : Type 0 where
  nothing : Claim
  expired : DeliveryMetric → Claim
  claimed : DeliveryContext → Claim

pub deadline_error : Text
deadline_error = codes "Express delivery deadline exceeded"

abbrev pub metric_of : Message → ProviderOutcome → DeliveryMetric
metric_of m o = record { priority = m.priority; outcome = o; message_created_at = m.created_at }

abbrev pub context_of : Message → DeliveryContext
context_of m = record {
  message_id = m.id;
  recipient = m.recipient;
  body = m.body;
  priority = m.priority;
}

unfoldable pub hand_out : Clock → ℕ → DispatchJob → Message → Tx Claim
hand_out c worker_id job message = do
  update_message (Messages.mark_dispatching message)
  update_job (Jobs.mark_dispatching c.written_at worker_id job)
  pure (Claim.claimed (context_of message))

unfoldable pub decide_claim : DispatchSettings → Clock → ℕ → DispatchJob → Message → Tx Claim
unfolding hand_out
decide_claim s c worker_id job message =
    branch (express_deadline_exceeded s c.deadline_at 0 message)
      (do
        permanently_fail job message deadline_error c.written_at
        pure (Claim.expired (metric_of message ProviderOutcome.permanent_failure)))
      (hand_out c worker_id job message)

unfoldable pub claim_message : DispatchSettings → Clock → ℕ → DispatchJob → Message → Tx Claim
unfolding decide_claim
claim_message s c worker_id job message = do
  raise_if (not (payment_eq message.payment_status PaymentStatus.reserved))
      Error.payment_not_reserved
  decide_claim s c worker_id job message

unfoldable pub claim_job : DispatchSettings → Clock → ℕ → Option DispatchJob → Tx Claim
claim_job s c worker_id none = pure Claim.nothing
claim_job s c worker_id (some job) =
    branch (is_terminal job.status || not (is_claimable s c.checked_at job)) (pure Claim.nothing)
      (do message ← Messages.get_for_update job.message_id; claim_message s c worker_id job message)

-- The transaction of `_claim_for_delivery`.
unfoldable pub claim : DispatchSettings → Clock → ℕ → ℕ → Tx Claim
unfolding claim_job
claim s c job_id worker_id = do job ← Jobs.get_for_update job_id; claim_job s c worker_id job

unfoldable pub record_metric : ℕ → DeliveryMetric → World → World
record_metric now m = record_delivery_outcome m.priority m.outcome m.message_created_at now

abbrev pub finish_claim : ℕ → Claim → World → Result (Option DeliveryContext) × World
finish_claim now Claim.nothing w = (ok none, w)
finish_claim now (Claim.expired m) w = (ok none, record_metric now m w)
finish_claim now (Claim.claimed d) w = (ok (some d), w)

unfoldable pub claim_for_delivery :
    DispatchSettings → Clock → ℕ → ℕ → World → Result (Option DeliveryContext) × World
unfolding claim record_metric
claim_for_delivery s c job_id worker_id w =
    let (r, db') = commit (claim s c job_id worker_id) w.db in
    elim r [
      | ok d ↦ finish_claim c.measured_at d (record w { db = db' })
      | err e ↦ (err e, record w { db = db' })
    ]

-- What the second transaction hands on: nothing if the lease was lost.
pub record Recorded : Type 0 where
  pub metric : DeliveryMetric
  pub retry_scheduled : Bool

-- `result.error or default`: an empty text is false.
abbrev pub error_or : Option Text → Text → Text
error_or none d = d
error_or (some []) d = d
error_or (some (c ∷ cs)) d = c ∷ cs

pub permanent_error : Text
permanent_error = codes "Permanent provider failure"

pub temporary_error : Text
temporary_error = codes "Temporary provider failure"

pub attempts_error : Text
attempts_error = codes "Maximum delivery attempts reached"

pub retry_deadline_error : Text
retry_deadline_error = codes "Express delivery deadline would be exceeded before next retry"

abbrev pub recorded : Message → ProviderOutcome → Bool → Option Recorded
recorded m o b = some (record { metric = metric_of m o; retry_scheduled = b })

unfoldable pub complete : Clock → Text → DispatchJob → Message → Tx (Option Recorded)
complete c provider_id job message = do
  Balances.settle message.user_id message.cost
  update_message (Messages.mark_sent message)
  Jobs.mark_completed c.written_at provider_id job
  pure (recorded message ProviderOutcome.success false)

-- A success without an id is an error of the provider.
unfoldable pub record_success : Clock → Option Text → DispatchJob → Message → Tx (Option Recorded)
unfolding complete
record_success c none job message = raise Error.no_provider_message_id
record_success c (some provider_id) job message = complete c provider_id job message

unfoldable pub record_permanent : Clock → Text → DispatchJob → Message → Tx (Option Recorded)
record_permanent c error job message = do
  permanently_fail job message error c.written_at
  pure (recorded message ProviderOutcome.permanent_failure false)

unfoldable pub schedule_retry : Clock → Text → ℕ → DispatchJob → Message → Tx (Option Recorded)
schedule_retry c error delay job message = do
  update_message (Messages.mark_retryable_failure message)
  update_job (Jobs.mark_delivery_retry c.written_at error delay job)
  pure (recorded message ProviderOutcome.temporary_failure true)

unfoldable pub record_temporary :
    DispatchSettings → Clock → ℕ → ProviderResult → DispatchJob → Message → Tx (Option Recorded)
unfolding record_permanent schedule_retry
record_temporary s c jitter result job message =
    let next_attempt = job.delivery_attempts + 1 in
    let delay = calculate_backoff next_attempt jitter in
    branch (leb s.max_delivery_attempts next_attempt)
      (record_permanent c (error_or result.error attempts_error) job message)
      (branch (express_deadline_exceeded s c.deadline_at delay message)
        (record_permanent c retry_deadline_error job message)
        (schedule_retry c (error_or result.error temporary_error) delay job message))

unfoldable pub record_result :
    DispatchSettings
    → Clock
    → ℕ
    → ProviderResult
    → ProviderOutcome
    → DispatchJob
    → Message
    → Tx (Option Recorded)
record_result s c jitter result ProviderOutcome.success job message =
    record_success c result.provider_message_id job message
record_result s c jitter result ProviderOutcome.permanent_failure job message =
    record_permanent c (error_or result.error permanent_error) job message
record_result s c jitter result ProviderOutcome.temporary_failure job message =
    record_temporary s c jitter result job message

abbrev pub holds_lease : ℕ → DispatchJob → Bool
holds_lease worker_id job =
    job_status_eq job.status DispatchJobStatus.dispatching && is_owner job.locked_by worker_id

unfoldable pub record_job :
    DispatchSettings → Clock → ℕ → ProviderResult → ℕ → Option DispatchJob → Tx (Option Recorded)
record_job s c jitter result worker_id none = pure none
record_job s c jitter result worker_id (some job) =
    branch (not (holds_lease worker_id job)) (pure none) (do
      message ← Messages.get_for_update job.message_id
      record_result s c jitter result result.outcome job message)

-- The transaction of `_record_outcome`.
unfoldable pub record_tx :
    DispatchSettings → Clock → ℕ → ℕ → ℕ → ProviderResult → Tx (Option Recorded)
unfolding record_job
record_tx s c jitter job_id worker_id result = do
  job ← Jobs.get_for_update job_id
  record_job s c jitter result worker_id job

abbrev pub finish_record : ℕ → Option Recorded → World → World
finish_record now none w = w
finish_record now (some r) w =
    let w' = record_metric now r.metric w in
    if r.retry_scheduled
    then record_dispatch_retry r.metric.priority RetryType.delivery 1 w'
    else w'

unfoldable pub record_outcome :
    DispatchSettings → Clock → ℕ → ℕ → ℕ → ProviderResult → World → Result (Unit {0}) × World
unfolding record_tx record_metric
record_outcome s c jitter job_id worker_id result w =
    let (r, db') = commit (record_tx s c jitter job_id worker_id result) w.db in
    elim r [
      | ok m ↦ (ok tt, finish_record c.measured_at m (record w { db = db' }))
      | err e ↦ (err e, record w { db = db' })
    ]

-- `SmsProvider.send`; it may raise.
abbrev pub SmsProvider : Type 0
SmsProvider = ℕ → Text → Text → Result ProviderResult

-- `process` with no other transaction between its two.
unfoldable pub process :
    DispatchSettings → SmsProvider → Clock → Clock → ℕ → ℕ → ℕ → World → Result (Unit {0}) × World
unfolding claim_for_delivery record_outcome
process s send c c' jitter job_id worker_id w =
    let (r, w') = claim_for_delivery s c job_id worker_id w in
    elim r [
      | err e ↦ (err e, w')
      | ok none ↦ (ok tt, w')
      | ok (some d) ↦ elim (send d.message_id d.recipient d.body) [
        | err e ↦ (err e, w')
        | ok result ↦ record_outcome s c' jitter job_id worker_id result w'
      ]
    ]
