-- ===== src/Repositories/Jobs.antt =====
-- src/infra/db/repositories/dispatch_jobs.py (`DispatchJobRepository`), all but `claim_batch`. Each
-- reading of the clock is an argument. A difference of datetimes is written as a sum on the other
-- side.
use abrio.Prelude.{
  ℕ, ◌+◌, ◌*◌, Bool, true, false, ◌&&◌, ◌||◌, Option, none, some, List, [], ◌∷◌, map, Text, codes,
  ◌==◌, ltb, if◌then◌else◌, keep, take, length, elem,
}
use abrio.Domain.Enums.{MessagePriority, DispatchJobStatus, priority_eq, job_status_eq}
use abrio.Database.Table.{find}
use abrio.Database.Rows.{DispatchJob, Message, job_key}
use abrio.Domain.Errors.{Error}
use abrio.Database.Constraints.{update_job}
use abrio.Database.Session.{Tx, gets, raise_if, ◌>>◌}

-- Microseconds in a second.
abbrev pub second : ℕ
second = 1000000

unfoldable pub get_for_update : ℕ → Tx (Option DispatchJob)
get_for_update job_id = gets (λ db. find job_key job_id db.jobs)

-- `create`: the new row, its id the drawn UUID, its times the server's defaults.
unfoldable pub create : ℕ → ℕ → Message → DispatchJob
create id now m = record {
  id = id;
  message_id = m.id;
  user_id = m.user_id;
  payload = record {
    message_id = m.id;
    user_id = m.user_id;
    recipient = m.recipient;
    body = m.body;
    priority = m.priority;
    cost = m.cost;
  };
  priority = m.priority;
  status = DispatchJobStatus.pending;
  retry_count = 0;
  delivery_attempts = 0;
  available_at = now;
  locked_at = none;
  locked_by = none;
  published_at = none;
  completed_at = none;
  provider_message_id = none;
  last_error = none;
  created_at = now;
}

-- `DispatchJob.status.in_([PENDING, RETRY])`
abbrev pub is_waiting : DispatchJobStatus → Bool
is_waiting DispatchJobStatus.pending = true
is_waiting DispatchJobStatus.retry = true
is_waiting _ = false

-- `column == value` on a nullable column: NULL is equal to nothing.
abbrev pub is_owner : Option ℕ → ℕ → Bool
is_owner none owner = false
is_owner (some o) owner = o == owner

-- `column < now - seconds`; NULL is below nothing.
abbrev pub is_older : Option ℕ → ℕ → ℕ → Bool
is_older none now seconds = false
is_older (some t) now seconds = ltb (t + seconds * second) now

unfoldable pub is_stale : MessagePriority → ℕ → ℕ → DispatchJob → Bool
is_stale priority now lease_seconds j =
    priority_eq j.priority priority
    && ((job_status_eq j.status DispatchJobStatus.published
          && is_older j.published_at now lease_seconds)
        || (job_status_eq j.status DispatchJobStatus.dispatching
            && is_older j.locked_at now lease_seconds))

pub reclaim_error : Text
reclaim_error = codes "reclaimed: stale in-flight lease expired"

unfoldable pub reclaim : ℕ → DispatchJob → DispatchJob
reclaim now j = record j {
  status = DispatchJobStatus.retry;
  delivery_attempts = j.delivery_attempts + 1;
  available_at = now;
  locked_at = none;
  locked_by = none;
  last_error = some reclaim_error;
}

-- `UPDATE ... WHERE test`: the rows that pass, each changed.
abbrev pub update_where :
    (DispatchJob → Bool) → (DispatchJob → DispatchJob) → List DispatchJob → List DispatchJob
update_where p f [] = []
update_where p f (j ∷ js) = (if p j then f j else j) ∷ update_where p f js

abbrev pub ids : List DispatchJob → List ℕ
ids = map (λ j. j.id)

-- The new table, and the number of rows that were reclaimed.
unfoldable pub reclaim_stale_inflight :
    MessagePriority → ℕ → ℕ → ℕ → List DispatchJob → ℕ × List DispatchJob
unfolding is_stale reclaim
reclaim_stale_inflight priority now lease_seconds limit js =
    let stale_ids = take limit (ids (keep (is_stale priority now lease_seconds) js)) in
    (
      length (keep (λ j. elem j.id stale_ids) js),
      update_where (λ j. elem j.id stale_ids) (reclaim now) js,
    )

-- The WHERE clause of `mark_published` and `mark_publish_retry`.
unfoldable pub still_claimed : List ℕ → ℕ → DispatchJob → Bool
still_claimed job_ids relay_id j =
    elem j.id job_ids && is_owner j.locked_by relay_id && is_waiting j.status

unfoldable pub set_published : ℕ → DispatchJob → DispatchJob
set_published now j = record j {
  status = DispatchJobStatus.published;
  published_at = some now;
  locked_at = none;
  locked_by = none;
  last_error = none;
}

-- An UPDATE with no ids changes no row, as the early return of the source.
unfoldable pub mark_published : List ℕ → ℕ → ℕ → List DispatchJob → List DispatchJob
unfolding still_claimed set_published
mark_published job_ids relay_id now =
    update_where (still_claimed job_ids relay_id) (set_published now)

unfoldable pub set_publish_retry : ℕ → Text → ℕ → DispatchJob → DispatchJob
set_publish_retry now error delay j = record j {
  status = DispatchJobStatus.retry;
  retry_count = j.retry_count + 1;
  available_at = now + delay;
  locked_at = none;
  locked_by = none;
  last_error = some (take 2000 error);
}

unfoldable pub mark_publish_retry : List ℕ → ℕ → Text → ℕ → ℕ → List DispatchJob → List DispatchJob
unfolding still_claimed set_publish_retry
mark_publish_retry job_ids relay_id error delay now =
    update_where (still_claimed job_ids relay_id) (set_publish_retry now error delay)

unfoldable pub mark_dispatching : ℕ → ℕ → DispatchJob → DispatchJob
mark_dispatching now worker_id j = record j {
  status = DispatchJobStatus.dispatching;
  locked_at = some now;
  locked_by = some worker_id;
  last_error = none;
}

unfoldable pub completed : ℕ → Text → DispatchJob → DispatchJob
completed now provider_message_id j = record j {
  status = DispatchJobStatus.completed;
  provider_message_id = some provider_message_id;
  completed_at = some now;
  locked_at = none;
  locked_by = none;
  last_error = none;
}

-- `mark_completed` with the flush of its row: `provider_message_id` is a `String(255)`, and
-- PostgreSQL refuses a longer text (`DataError`).
unfoldable pub mark_completed : ℕ → Text → DispatchJob → Tx (Unit {0})
unfolding completed
mark_completed now provider_message_id j = do
  raise_if (ltb 255 (length provider_message_id)) Error.out_of_range
  update_job (completed now provider_message_id j)

unfoldable pub mark_delivery_retry : ℕ → Text → ℕ → DispatchJob → DispatchJob
mark_delivery_retry now error delay j = record j {
  status = DispatchJobStatus.retry;
  delivery_attempts = j.delivery_attempts + 1;
  available_at = now + delay;
  locked_at = none;
  locked_by = none;
  last_error = some (take 2000 error);
}

unfoldable pub mark_failed : ℕ → Text → DispatchJob → DispatchJob
mark_failed now error j = record j {
  status = DispatchJobStatus.failed;
  completed_at = some now;
  locked_at = none;
  locked_by = none;
  last_error = some (take 2000 error);
}
