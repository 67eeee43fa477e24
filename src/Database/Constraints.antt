-- ===== src/Database/Constraints.antt =====
-- What PostgreSQL checks on an INSERT or UPDATE of each table. The checks of one row come in the
-- order: range of the column, CHECK constraints by name, unique keys, foreign keys at the end of
-- the statement.
use abrio.Prelude.{Bool, true, false, ◌||◌, ◌&&◌, not, List, [], ◌∷◌, ◌++◌, ◌==◌, is_some}
use abrio.Prelude.Int.{ℤ, pos, negsuc, ltb_ℤ, leb_ℤ}
use abrio.Domain.Errors.{
  Error, check_violation, unique_violation, foreign_key_violation,
  check_credits_ge_reserved_credits, check_credits_non_negative,
  check_reserved_credits_non_negative, check_cost_gt_zero,
}
use abrio.Database.Table.{find, save}
use abrio.Database.Rows.{
  Balance, Message, DispatchJob, Database, user_key, balance_key, message_key, job_key,
  job_message_key,
}
use abrio.Database.Session.{Tx, modify, raise_if, gets, pure, ◌>>=◌, ◌>>◌}

-- `Numeric(10, 2)`: an absolute value below 10 ^ 10 cents.
abbrev pub numeric_limit : ℤ
numeric_limit = pos 10000000000

abbrev pub in_range : ℤ → Bool
in_range x = ltb_ℤ x numeric_limit && ltb_ℤ (negsuc 9999999999) x

-- The flush of a changed balance, with the CHECK constraints of `Balance`.
unfoldable pub update_balance : Balance → Tx (Unit {0})
update_balance b = do
  raise_if (not (in_range b.credits && in_range b.reserved_credits)) Error.out_of_range
  raise_if (ltb_ℤ b.credits b.reserved_credits)
      (Error.integrity (check_violation check_credits_ge_reserved_credits))
  raise_if (ltb_ℤ b.credits (pos 0)) (Error.integrity (check_violation check_credits_non_negative))
  raise_if (ltb_ℤ b.reserved_credits (pos 0))
      (Error.integrity (check_violation check_reserved_credits_non_negative))
  modify (λ db. record db { balances = save balance_key b db.balances })

-- Whether the primary key or `unique_user_id_idempotency_key` of `Message` holds another row.
unfoldable pub message_conflicts : Message → List Message → Bool
message_conflicts m [] = false
message_conflicts m (x ∷ ms) =
    (x.id == m.id)
    || (x.user_id == m.user_id && x.idempotency_key == m.idempotency_key)
    || message_conflicts m ms

unfoldable pub insert_message : Message → Tx (Unit {0})
unfolding message_conflicts
insert_message m = do
  raise_if (not (in_range m.cost)) Error.out_of_range
  raise_if (leb_ℤ m.cost (pos 0)) (Error.integrity (check_violation check_cost_gt_zero))
  ms ← gets (λ db. db.messages)
  raise_if (message_conflicts m ms) (Error.integrity unique_violation)
  modify (λ db. record db { messages = db.messages ++ m ∷ [] })

unfoldable pub insert_each : List Message → Tx (Unit {0})
insert_each [] = pure tt
insert_each (m ∷ ms) = insert_message m >> insert_each ms

-- Whether every message names a row of `users`.
abbrev pub users_exist : List Message → Database → Bool
users_exist [] db = true
users_exist (m ∷ ms) db = is_some (find user_key m.user_id db.users) && users_exist ms db

-- The flush of new messages: one INSERT of all the rows.
unfoldable pub insert_messages : List Message → Tx (Unit {0})
unfolding insert_message insert_each
insert_messages ms = do
  insert_each ms
  found ← gets (users_exist ms)
  raise_if (not found) (Error.integrity foreign_key_violation)

unfoldable pub insert_job : DispatchJob → Tx (Unit {0})
insert_job j = do
  js ← gets (λ db. db.jobs)
  raise_if (is_some (find job_key j.id js) || is_some (find job_message_key j.message_id js))
      (Error.integrity unique_violation)
  ms ← gets (λ db. db.messages)
  raise_if (not (is_some (find message_key j.message_id ms)))
      (Error.integrity foreign_key_violation)
  us ← gets (λ db. db.users)
  raise_if (not (is_some (find user_key j.user_id us))) (Error.integrity foreign_key_violation)
  modify (λ db. record db { jobs = db.jobs ++ j ∷ [] })

-- The flush of new dispatch jobs.
unfoldable pub insert_jobs : List DispatchJob → Tx (Unit {0})
unfolding insert_job
insert_jobs [] = pure tt
insert_jobs (j ∷ js) = insert_job j >> insert_jobs js

-- The flush of changed messages and jobs. Of what the code writes to them only the provider's id can
-- fail a check, which `mark_completed` makes.
abbrev pub update_message : Message → Tx (Unit {0})
update_message m = modify (λ db. record db { messages = save message_key m db.messages })

abbrev pub update_job : DispatchJob → Tx (Unit {0})
update_job j = modify (λ db. record db { jobs = save job_key j db.jobs })
