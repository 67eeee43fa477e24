-- ===== src/Metrics.antt =====
-- src/core/metrics.py: the counters and the histogram that the use cases move after a commit, as
-- the list of the increments in their order.
use abrio.Prelude.{ℕ, zero, suc, ◌-◌, List, ◌∷◌}
use abrio.Domain.Enums.{MessagePriority, ProviderOutcome}
use abrio.Database.Rows.{Database}

pub data SubmissionType : Type 0 where
  single batch : SubmissionType

pub data RejectionReason : Type 0 where
  rate_limited global_rate_limited system_rate_limited insufficient_balance : RejectionReason
  invalid_request idempotency_conflict database_error : RejectionReason

pub data RetryType : Type 0 where
  publication delivery : RetryType

pub data Increment : Type 0 where
  messages_submitted : MessagePriority → SubmissionType → ℕ → Increment
  submission_rejected : RejectionReason → SubmissionType → Increment
  idempotent_replay : SubmissionType → Increment
  relay_jobs_published : MessagePriority → ℕ → Increment
  relay_publish_failures : MessagePriority → ℕ → Increment
  dispatch_retries : MessagePriority → RetryType → ℕ → Increment
  -- `DELIVERY_ATTEMPTS`, and the seconds observed by `MESSAGE_END_TO_END_DURATION`.
  delivery_attempts : MessagePriority → ProviderOutcome → ℕ → Increment

-- What a process changes: the database, and its metrics, the newest increment first.
pub record World : Type 0 where
  pub db : Database
  pub metrics : List Increment

abbrev pub record_increment : Increment → World → World
record_increment i w = record w { metrics = i ∷ w.metrics }

-- `if count <= 0: return`
abbrev pub record_count : (ℕ → Increment) → ℕ → World → World
record_count f zero w = w
record_count f (suc n) w = record_increment (f (suc n)) w

unfoldable pub record_messages_submitted : MessagePriority → SubmissionType → ℕ → World → World
record_messages_submitted p s = record_count (Increment.messages_submitted p s)

unfoldable pub record_submission_rejected : RejectionReason → SubmissionType → World → World
record_submission_rejected r s = record_increment (Increment.submission_rejected r s)

unfoldable pub record_idempotent_replay : SubmissionType → World → World
record_idempotent_replay s = record_increment (Increment.idempotent_replay s)

unfoldable pub record_relay_publish : MessagePriority → ℕ → World → World
record_relay_publish p = record_count (Increment.relay_jobs_published p)

unfoldable pub record_relay_publish_failure : MessagePriority → ℕ → World → World
record_relay_publish_failure p = record_count (Increment.relay_publish_failures p)

unfoldable pub record_dispatch_retry : MessagePriority → RetryType → ℕ → World → World
record_dispatch_retry p t = record_count (Increment.dispatch_retries p t)

-- `max(0.0, now - created_at)`, in microseconds.
unfoldable pub record_delivery_outcome : MessagePriority → ProviderOutcome → ℕ → ℕ → World → World
record_delivery_outcome p o created_at now =
    record_increment (Increment.delivery_attempts p o (now - created_at))
