-- ===== src/Ledger/Admission.antt =====
-- The decision that `create_message` of src/app/usecases/messages.py takes on a consistent database:
-- which requests the balance of their user admits.
use abrio.Prelude.{
  ℕ, ◌≡◌, ap, ◌∙◌, inl, inr, true, false, none, some, List, [], ◌∷◌, ◌++◌, Bool-cases, Option-cases,
  is_some, arith, ◌==◌,
}
use abrio.Prelude.Int.{ℤ, pos, ◌+ℤ◌, ◌≤ℤ◌, ◌<ℤ◌, int_laws}
use abrio.Domain.Errors.{Error, check_violation, check_credits_ge_reserved_credits}
use abrio.Database.Table.{find, find_key, find-append_none, Keyed}
use abrio.Database.Rows.{
  Balance, Message, DispatchJob, Database, user_key, balance_key, message_key, job_key,
  job_message_key,
}
use abrio.Database.Session.{Tx, ok, err, ◌>>=◌, ◌>>◌, pure, >>=-eq-err}
use abrio.Database.Constraints.{
  numeric_limit, update_balance, message_conflicts, insert_message, insert_each, insert_messages,
  insert_job, insert_jobs,
}
use abrio.Repositories.Balances.{reserve_credits}
use abrio.Repositories.Jobs
use abrio.UseCases.Submission.{Draws, new_jobs, submit}
use abrio.Ledger.Consistent.{Inv, IsSound}
use abrio.Ledger.Accounts.{reserved_more, with_balance, update_balance_ok}
use abrio.Ledger.Insert.{with_messages, with_jobs, conflicts_none}
use abrio.Ledger.Submission.{submitted}

-- A new message and job whose ids and idempotency key no row has.
pub record IsFresh (k : ℕ) (m : Message) (db : Database) : Type 0 where
  pub unused : message_conflicts m db.messages ≡ false
  pub drawn : find job_key k db.jobs ≡ none

-- A transaction goes on from what its first part leaves.
>>=-ran :
    {A B : Type 0} (m : Tx A) (f : A → Tx B) (db d : Database) (a : A)
    → m db ≡ ok (a, d)
    → (m >>= f) db ≡ f a d
>>=-ran m f db d a h = ap (λ r. elim r [ ok (x, y) ↦ f x y | err e ↦ err e ]) h

-- A job found by its message is the one that its own id finds.
find-job_id :
    (v : ℕ) (j : DispatchJob) (js : List DispatchJob)
    → Keyed job_key js
    → find job_message_key v js ≡ some j
    → find job_key j.id js ≡ some j
find-job_id v j [] k h = cc
find-job_id v j (x ∷ js) k h = elim (Bool-cases (job_message_key x == v)) [
  | inl e ↦ ground arith
  | inr n ↦ let rest = find-job_id v j js k.1 (ground arith) in ground (arith, k.0)
]

-- No job names a message that is not in the table.
unlinked :
    (v : ℕ) (db : Database)
    → Inv db
    → find message_key v db.messages ≡ none
    → find job_message_key v db.jobs ≡ none
unlinked v db inv h = elim (Option-cases (find job_message_key v db.jobs)) [
  | inl e ↦ e
  | inr (j, hj) ↦
      let (m, hm, ag) = inv.linked j.id j (find-job_id v j db.jobs inv.keyed hj) in
      let ev : j.message_id ≡ v = find_key job_message_key v db.jobs j hj in absurd cc
]

insert_message_ok :
    (m : Message) (db : Database)
    → pos 0 <ℤ m.cost
    → m.cost <ℤ numeric_limit
    → message_conflicts m db.messages ≡ false
    → insert_message m db ≡ ok (tt, with_messages (m ∷ []) db)
unfolding insert_message
insert_message_ok m db price range c = ground arith

insert_messages_ok :
    (m : Message) (db : Database)
    → pos 0 <ℤ m.cost
    → m.cost <ℤ numeric_limit
    → message_conflicts m db.messages ≡ false
    → is_some (find user_key m.user_id db.users) ≡ true
    → insert_messages (m ∷ []) db ≡ ok (tt, with_messages (m ∷ []) db)
unfolding insert_messages insert_each
insert_messages_ok m db price range c user =
    let one =
      >>=-ran (insert_message m) (λ _. insert_each []) db (with_messages (m ∷ []) db) tt
        (insert_message_ok m db price range c) in
    >>=-ran (insert_each (m ∷ [])) _ db (with_messages (m ∷ []) db) tt one ∙ ground (arith, user)

insert_job_ok :
    (j : DispatchJob) (db : Database)
    → find job_key j.id db.jobs ≡ none
    → find job_message_key j.message_id db.jobs ≡ none
    → is_some (find message_key j.message_id db.messages) ≡ true
    → is_some (find user_key j.user_id db.users) ≡ true
    → insert_job j db ≡ ok (tt, with_jobs (j ∷ []) db)
unfolding insert_job
insert_job_ok j db a b c d = ground arith

update_balance_over :
    (b : Balance) (db : Database)
    → numeric_limit ≤ℤ b.reserved_credits
    → update_balance b db ≡ err Error.out_of_range
unfolding update_balance
update_balance_over b db h = ground arith

update_balance_short :
    (b : Balance) (db : Database)
    → pos 0 ≤ℤ b.credits
    → pos 0 ≤ℤ b.reserved_credits
    → b.credits <ℤ numeric_limit
    → b.reserved_credits <ℤ numeric_limit
    → b.credits <ℤ b.reserved_credits
    → update_balance b db
      ≡ err (Error.integrity (check_violation check_credits_ge_reserved_credits))
unfolding update_balance
update_balance_short b db c0 r0 c1 r1 h = ground arith

module _ (u : ℕ) (cost : ℤ) (b : Balance) (db : Database) (price : pos 0 <ℤ cost)
    (hb : find balance_key u db.balances ≡ some b) (s : IsSound b) where
  reserve_credits_ok :
      (b.reserved_credits +ℤ cost) ≤ℤ b.credits
      → reserve_credits u cost db
        ≡ ok (reserved_more b cost, with_balance (reserved_more b cost) db)
  unfolding reserve_credits
  reserve_credits_ok h =
      let sound : IsSound (reserved_more b cost) = record {
        nonneg = omega (int_laws, s.nonneg);
        covered = h;
        bounded = s.bounded;
      } in
      ground (arith, update_balance_ok (reserved_more b cost) db sound)

  reserve_credits_short :
      b.credits <ℤ (b.reserved_credits +ℤ cost)
      → (b.reserved_credits +ℤ cost) <ℤ numeric_limit
      → reserve_credits u cost db
        ≡ err (Error.integrity (check_violation check_credits_ge_reserved_credits))
  unfolding reserve_credits
  reserve_credits_short h range = ground (
    arith,
    update_balance_short (reserved_more b cost) db (omega (int_laws, s.nonneg, s.covered))
        (omega (int_laws, s.nonneg)) s.bounded range h,
  )

  reserve_credits_over :
      numeric_limit ≤ℤ (b.reserved_credits +ℤ cost)
      → reserve_credits u cost db ≡ err Error.out_of_range
  unfolding reserve_credits
  reserve_credits_over h = ground (arith, update_balance_over (reserved_more b cost) db)

-- The rows that the user of a new message needs.
pub record IsAccount (u : ℕ) (b : Balance) (db : Database) : Type 0 where
  pub registered : is_some (find user_key u db.users) ≡ true
  pub balance : find balance_key u db.balances ≡ some b

module _ (d : Draws) (now : ℕ) (m : Message) (b : Balance) (db : Database) (inv : Inv db)
    (acc : IsAccount m.user_id b db) (fresh : IsFresh (d.job_id 0) m db) (price : pos 0 <ℤ m.cost)
    (range : m.cost <ℤ numeric_limit) where
  abbrev rows : Database
  rows = with_jobs (new_jobs d now 0 (m ∷ [])) (with_messages (m ∷ []) db)

  insert_jobs_ok :
      insert_jobs (new_jobs d now 0 (m ∷ [])) (with_messages (m ∷ []) db) ≡ ok (tt, rows)
  unfolding insert_jobs new_jobs Jobs.create
  insert_jobs_ok =
      let gone : find message_key m.id db.messages ≡ none =
        conflicts_none m db.messages fresh.unused in
      let there : find message_key m.id (db.messages ++ m ∷ []) ≡ some m =
        find-append_none message_key m.id db.messages (m ∷ []) gone ∙ ground arith in
      >>=-ran (insert_job (Jobs.create (d.job_id 0) now m)) (λ _. insert_jobs [])
        (with_messages (m ∷ []) db) rows tt
        (insert_job_ok (Jobs.create (d.job_id 0) now m) (with_messages (m ∷ []) db) fresh.drawn
          (unlinked m.id db inv gone) (ap is_some there) acc.registered)

  -- The reservation decides.
  submit-reserve :
      submit d now m.user_id m.cost (m ∷ []) db ≡ (reserve_credits m.user_id m.cost >> pure tt) rows
  unfolding submit
  submit-reserve =
      >>=-ran (insert_messages (m ∷ [])) _ db (with_messages (m ∷ []) db) tt
        (insert_messages_ok m db price range fresh.unused acc.registered)
      ∙ >>=-ran (insert_jobs (new_jobs d now 0 (m ∷ []))) _ (with_messages (m ∷ []) db) rows tt
          insert_jobs_ok

  pub submit_ok :
      (b.reserved_credits +ℤ m.cost) ≤ℤ b.credits
      → submit d now m.user_id m.cost (m ∷ []) db ≡ ok (tt, submitted d now m.cost (m ∷ []) b db)
  submit_ok h =
      submit-reserve
      ∙ >>=-ran (reserve_credits m.user_id m.cost) _ rows
          (with_balance (reserved_more b m.cost) rows) (reserved_more b m.cost)
          (reserve_credits_ok m.user_id m.cost b rows price acc.balance
            (inv.funded m.user_id b acc.balance).0 h)

  pub submit_short :
      b.credits <ℤ (b.reserved_credits +ℤ m.cost)
      → (b.reserved_credits +ℤ m.cost) <ℤ numeric_limit
      → submit d now m.user_id m.cost (m ∷ []) db
        ≡ err (Error.integrity (check_violation check_credits_ge_reserved_credits))
  submit_short h bound =
      submit-reserve
      ∙ >>=-eq-err (reserve_credits m.user_id m.cost) _ rows _ (
          reserve_credits_short m.user_id m.cost b rows price acc.balance
            (inv.funded m.user_id b acc.balance).0 h bound)

  pub submit_over :
      numeric_limit ≤ℤ (b.reserved_credits +ℤ m.cost)
      → submit d now m.user_id m.cost (m ∷ []) db ≡ err Error.out_of_range
  submit_over h =
      submit-reserve
      ∙ >>=-eq-err (reserve_credits m.user_id m.cost) _ rows _ (
          reserve_credits_over m.user_id m.cost b rows price acc.balance
            (inv.funded m.user_id b acc.balance).0 h)
