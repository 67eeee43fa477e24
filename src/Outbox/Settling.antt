-- ===== src/Outbox/Settling.antt =====
-- What a turn of the relay's loop leaves of a batch (src/infra/workers/dispatch_relay.py,
-- `publish_claimed_jobs`): each row that the relay still owns.
use abrio.Prelude.{
  ℕ, ◌+◌, ◌≡◌, Bool, true, false, ◌&&◌, ◌||◌, some, none, List, [], ◌∷◌, Text, take, ◌==◌,
}
use abrio.Domain.Enums.{DispatchJobStatus}
use abrio.Database.Rows.{DispatchJob, Database}
use abrio.Repositories.Jobs
use abrio.Repositories.Jobs.{is_owner, is_waiting}
use abrio.Relay.{ClaimedJob}

-- The broker takes every job of the batch up to the one with the id.
abbrev pub accepted_up_to : (ℕ → Bool) → ℕ → List ClaimedJob → Bool
accepted_up_to accepts k [] = false
accepted_up_to accepts k (j ∷ jobs) = accepts j.id && ((k == j.id) || accepted_up_to accepts k jobs)

module _ (o jitter now now' : ℕ) (error : Text) (k : ℕ) (j : DispatchJob)
    (owned : (is_owner j.locked_by o && is_waiting j.status) ≡ true) where
  -- The row as it is published, and as it waits to be published again.
  abbrev published_row : DispatchJob
  published_row = record j {
    status = DispatchJobStatus.published;
    published_at = some now;
    locked_at = none;
    locked_by = none;
    last_error = none;
  }

  abbrev retry_row : ℕ → DispatchJob
  retry_row delay = record j {
    status = DispatchJobStatus.retry;
    retry_count = j.retry_count + 1;
    available_at = now' + delay;
    locked_at = none;
    locked_by = none;
    last_error = some (take 2000 error);
  }
