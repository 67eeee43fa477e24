-- ===== src/Repositories/Claim.antt =====
-- `DispatchJobRepository.claim_batch` of src/infra/db/repositories/dispatch_jobs.py. `locked` tells
-- which rows other transactions hold, which `SKIP LOCKED` passes over; rows that tie in an ORDER BY
-- keep the order of the table.
use abrio.Prelude.{
  ℕ, suc, ◌-◌, Bool, true, ◌&&◌, ◌||◌, not, Option, none, some, List, [], ◌∷◌, ◌++◌, map, ◌==◌, ltb,
  leb, if◌then◌else◌, keep, take, length, elem,
}
use abrio.Domain.Enums.{MessagePriority, priority_eq}
use abrio.Database.Rows.{DispatchJob}
use abrio.Repositories.Jobs.{is_waiting, is_older, ids, update_where}

-- `locked_at IS NULL OR locked_at < stale_before`
abbrev pub is_free : Option ℕ → ℕ → ℕ → Bool
is_free none now seconds = true
is_free (some t) now seconds = is_older (some t) now seconds

unfoldable pub eligible : MessagePriority → ℕ → ℕ → DispatchJob → Bool
eligible priority now lease_seconds j =
    priority_eq j.priority priority
    && is_waiting j.status
    && leb j.available_at now
    && is_free j.locked_at now lease_seconds

-- ORDER BY, by a Boolean order.
module _ {A : Type 0} (before : A → A → Bool) where
  unfoldable pub insert_by : A → List A → List A
  insert_by a [] = a ∷ []
  insert_by a (b ∷ bs) = if before a b then a ∷ b ∷ bs else b ∷ insert_by a bs

  unfoldable pub sort_by : List A → List A
  sort_by [] = []
  sort_by (a ∷ bs) = insert_by a (sort_by bs)

-- `ORDER BY available_at, created_at`
abbrev pub older_first : DispatchJob → DispatchJob → Bool
older_first a b =
    ltb a.available_at b.available_at
    || (a.available_at == b.available_at && leb a.created_at b.created_at)

-- `row_number() OVER (PARTITION BY user_id ORDER BY ...)` on the ordered rows: 1 more than the
-- number of earlier rows of the same user.
abbrev pub count_user : ℕ → List DispatchJob → ℕ
count_user u js = length (keep (λ j. j.user_id == u) js)

unfoldable pub number_rows : List DispatchJob → List DispatchJob → List (ℕ × DispatchJob)
number_rows seen [] = []
number_rows seen (j ∷ js) = (suc (count_user j.user_id seen), j) ∷ number_rows (j ∷ seen) js

-- `ORDER BY rn, id`
abbrev pub rank_first : ℕ × DispatchJob → ℕ × DispatchJob → Bool
rank_first (r, a) (q, b) = ltb r q || (r == q && leb a.id b.id)

abbrev pub ranked_id : ℕ × DispatchJob → ℕ
ranked_id (r, j) = j.id

abbrev pub within : ℕ → ℕ × DispatchJob → Bool
within per_user_limit (r, j) = leb r per_user_limit

-- The ids of the fairness pass, from the eligible rows in their order.
unfoldable pub fair_ids : ℕ → ℕ → List DispatchJob → List ℕ
unfolding number_rows sort_by insert_by
fair_ids limit per_user_limit ordered =
    take limit
      (map ranked_id (sort_by rank_first (keep (within per_user_limit) (number_rows [] ordered))))

-- The eligible rows of the table in the order of both queries.
unfoldable pub candidates : MessagePriority → ℕ → ℕ → List DispatchJob → List DispatchJob
unfolding sort_by insert_by eligible
candidates priority now lease_seconds js =
    sort_by older_first (keep (eligible priority now lease_seconds) js)

unfoldable pub fair_pass : (ℕ → Bool) → ℕ → ℕ → List DispatchJob → List DispatchJob
unfolding fair_ids
fair_pass locked limit per_user_limit ordered =
    keep (λ j. elem j.id (fair_ids limit per_user_limit ordered) && not (locked j.id)) ordered

unfoldable pub topup_pass : (ℕ → Bool) → ℕ → List ℕ → List DispatchJob → List DispatchJob
topup_pass locked remaining claimed_ids ordered =
    take remaining (keep (λ j. not (elem j.id claimed_ids) && not (locked j.id)) ordered)

-- Both passes.
unfoldable pub select_batch : (ℕ → Bool) → ℕ → ℕ → List DispatchJob → List DispatchJob
unfolding fair_pass topup_pass
select_batch locked limit per_user_limit ordered =
    let fair = fair_pass locked limit per_user_limit ordered in
    fair ++ topup_pass locked (limit - length fair) (ids fair) ordered

unfoldable pub lock_for : ℕ → ℕ → DispatchJob → DispatchJob
lock_for now relay_id j = record j { locked_at = some now; locked_by = some relay_id }

-- The claimed jobs, and the table with their locks.
unfoldable pub claim_batch :
    MessagePriority
    → ℕ
    → ℕ
    → ℕ
    → ℕ
    → (ℕ → Bool)
    → ℕ
    → List DispatchJob
    → List DispatchJob × List DispatchJob
unfolding select_batch candidates lock_for
claim_batch priority relay_id limit lease_seconds per_user_limit locked now js =
    let jobs =
      select_batch locked limit per_user_limit (candidates priority now lease_seconds js) in
    (
      map (lock_for now relay_id) jobs,
      update_where (λ j. elem j.id (ids jobs)) (lock_for now relay_id) js,
    )
