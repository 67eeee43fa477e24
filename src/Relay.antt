-- ===== src/Relay.antt =====
-- src/infra/workers/dispatch_relay.py: the outbox relay. One turn of its loop claims due jobs, hands
-- them to the broker, and records what became of them; every 30 seconds it first takes back jobs
-- that are stranded in flight. Start-up, log lines and the sleep are left out.
use abrio.Prelude.{ℕ, ◌+◌, Bool, List, [], ◌∷◌, map, Text, leb, if◌then◌else◌, length, max}
use abrio.Domain.Enums.{MessagePriority}
use abrio.Database.Rows.{DispatchJob}
use abrio.Repositories.Jobs
use abrio.Repositories.Claim.{claim_batch}
use abrio.UseCases.Dispatch.{calculate_backoff}
use abrio.Metrics.{
  World, RetryType, record_relay_publish, record_relay_publish_failure, record_dispatch_retry,
}

abbrev pub lease_seconds : ℕ
lease_seconds = 60

abbrev pub inflight_lease_seconds : ℕ
inflight_lease_seconds = 120

abbrev pub reap_interval_seconds : ℕ
reap_interval_seconds = 30

abbrev pub reap_limit : ℕ
reap_limit = 200

-- `PriorityConfig`; the name of the queue follows from the priority.
pub record PriorityConfig : Type 0 where
  pub priority : MessagePriority
  pub batch_size : ℕ
  pub per_user_limit : ℕ

pub record ClaimedJob : Type 0 where
  pub id : ℕ
  pub retry_count : ℕ

abbrev with_jobs : List DispatchJob → World → World
with_jobs js w = record w { db = record (w.db) { jobs = js } }

unfoldable pub reclaim_stale_inflight : PriorityConfig → ℕ → World → World
reclaim_stale_inflight c now w =
    let (reclaimed, js) =
      Jobs.reclaim_stale_inflight c.priority now inflight_lease_seconds reap_limit w.db.jobs in
    record_dispatch_retry c.priority RetryType.delivery reclaimed (with_jobs js w)

abbrev claimed_job : DispatchJob → ClaimedJob
claimed_job j = record { id = j.id; retry_count = j.retry_count }

unfoldable pub claim_jobs : PriorityConfig → ℕ → (ℕ → Bool) → ℕ → World → List ClaimedJob × World
claim_jobs c relay_id locked now w =
    let (jobs, js) =
      claim_batch c.priority relay_id c.batch_size lease_seconds c.per_user_limit locked now
        w.db.jobs in
    (map claimed_job jobs, with_jobs js w)

-- The loop over the jobs up to the first that `apply_async` refuses: the published ids, and the job
-- that failed with all that follow it.
unfoldable pub publish_each : (ℕ → Bool) → List ClaimedJob → List ℕ × List ClaimedJob
publish_each accepts [] = ([], [])
publish_each accepts (j ∷ jobs) =
    let rest = publish_each accepts jobs in
    if accepts j.id then (j.id ∷ rest.0, rest.1) else ([], j ∷ jobs)

abbrev pub claimed_ids : List ClaimedJob → List ℕ
claimed_ids = map (λ j. j.id)

-- `max(job.retry_count for job in failed_jobs)`
unfoldable pub highest_retry_count : List ClaimedJob → ℕ
highest_retry_count [] = 0
highest_retry_count (j ∷ jobs) = max j.retry_count (highest_retry_count jobs)

-- The transaction after the loop. The two readings of the clock are arguments; with no failed job
-- `mark_publish_retry` is not called.
unfoldable pub record_published :
    ℕ → ℕ → ℕ → ℕ → Text → List ℕ → List ClaimedJob → List DispatchJob → List DispatchJob
record_published relay_id jitter now now' error published [] js =
    Jobs.mark_published published relay_id now js
record_published relay_id jitter now now' error published (f ∷ failed) js =
    Jobs.mark_publish_retry (claimed_ids (f ∷ failed)) relay_id error
      (calculate_backoff (highest_retry_count (f ∷ failed)) jitter) now'
      (Jobs.mark_published published relay_id now js)

unfoldable pub publish_claimed_jobs :
    PriorityConfig → ℕ → (ℕ → Bool) → ℕ → ℕ → ℕ → Text → List ClaimedJob → World → World
unfolding record_published
publish_claimed_jobs c relay_id accepts jitter now now' error [] w = w
publish_claimed_jobs c relay_id accepts jitter now now' error (j ∷ jobs) w =
    let (published, failed) = publish_each accepts (j ∷ jobs) in
    let w1 =
      with_jobs (record_published relay_id jitter now now' error published failed w.db.jobs) w in
    let w2 = record_relay_publish c.priority (length published) w1 in
    let w3 = record_relay_publish_failure c.priority (length failed) w2 in
    record_dispatch_retry c.priority RetryType.publication (length failed) w3

-- What the surroundings of one turn of `run` decide: the monotonic clock, the wall clock of each
-- transaction, rows held by others, the broker's answers, the jitter and the error's text.
pub record Turn : Type 0 where
  pub monotonic : ℕ
  pub reaped_at : ℕ
  pub claimed_at : ℕ
  pub published_at : ℕ
  pub failed_at : ℕ
  pub locked : ℕ → Bool
  pub accepts : ℕ → Bool
  pub jitter : ℕ
  pub error : Text

-- The loop's state: the time of the last reaping, on the monotonic clock.
pub record LoopState : Type 0 where
  pub last_reap : ℕ
  pub world : World

abbrev pub reap : PriorityConfig → Turn → LoopState → LoopState
reap c t s =
    if leb (s.last_reap + reap_interval_seconds) t.monotonic
    then record s { last_reap = t.monotonic; world = reclaim_stale_inflight c t.reaped_at s.world }
    else s

unfoldable pub turn : PriorityConfig → ℕ → Turn → LoopState → LoopState
unfolding claim_jobs publish_claimed_jobs
turn c relay_id t s =
    let s1 = reap c t s in
    let (jobs, w) = claim_jobs c relay_id t.locked t.claimed_at s1.world in
    record s1 {
      world =
          publish_claimed_jobs c relay_id t.accepts t.jitter t.published_at t.failed_at t.error jobs
            w;
    }
