-- ===== src/Ledger/Insert.antt =====
-- What the INSERT statements of a submission leave: new messages under fresh ids, and new jobs each
-- linked with its message.
use abrio.Prelude.{
  ℕ, suc, ◌≡◌, ◌≢◌, refl, sym, subst, ap, ◌∙◌, ◌⊎◌, inl, inr, true, false, none, some, List, [],
  ◌∷◌, ◌++◌, All, Option-cases, arith,
}
use mathlib.Core.List.{append-nil, append_assoc}
use abrio.Prelude.Int.{pos, ◌<ℤ◌}
use abrio.Domain.Enums.{PaymentStatus}
use abrio.Database.Table.{find, find-append, find-append_none, Keyed, Keyed-insert}
use abrio.Database.Rows.{Message, DispatchJob, Database, message_key, job_key, job_message_key}
use abrio.Database.Session.{ok, >>=-eq-ok}
use abrio.Database.Constraints.{
  message_conflicts, insert_message, insert_each, insert_messages, insert_job, insert_jobs,
}
use abrio.Repositories.Jobs
use abrio.UseCases.Submission.{Draws, new_jobs}
use abrio.Ledger.Consistent.{Linked, Unshared, Priced, agrees}

-- A message without conflict has a new id.
pub conflicts_none :
    (m : Message) (ms : List Message)
    → message_conflicts m ms ≡ false
    → find message_key m.id ms ≡ none
unfolding message_conflicts
conflicts_none m [] h = refl
conflicts_none m (x ∷ ms) h = ground (arith, conflicts_none m ms)

abbrev pub Stored : List Message → List Message → Type 0
Stored ms table = All (λ m. find message_key m.id table ≡ some m) ms

pub Stored-append : (ms table more : List Message) → Stored ms table → Stored ms (table ++ more)
Stored-append [] table more h = tt
Stored-append (m ∷ ms) table more h =
    (find-append message_key m.id table more m h.0, Stored-append ms table more h.1)

abbrev pub with_messages : List Message → Database → Database
with_messages ms db = record db { messages = db.messages ++ ms }

insert_message_inv :
    (m : Message) (db db' : Database)
    → insert_message m db ≡ ok (tt, db')
    → (pos 0 <ℤ m.cost)
      × (find message_key m.id db.messages ≡ none)
      × (db' ≡ with_messages (m ∷ []) db)
unfolding insert_message
insert_message_inv m db db' h =
    (ground arith, conflicts_none m db.messages (ground arith), ground arith)

pub insert_each_inv :
    (ms : List Message) (db db' : Database)
    → insert_each ms db ≡ ok (tt, db')
    → Priced ms × Stored ms db'.messages × (db' ≡ with_messages ms db)
unfolding insert_each
insert_each_inv [] db db' h = (tt, tt, ground (arith, append-nil db.messages))
insert_each_inv (m ∷ ms) db db' h =
    let (u, d, h1, h2) = >>=-eq-ok (insert_message m) (λ _. insert_each ms) db h in
    let (price, new, e1) = insert_message_inv m db d h1 in
    let (prices, stored, e2) = insert_each_inv ms d db' h2 in
    let here : find message_key m.id d.messages ≡ some m =
      rw e1 (find-append_none message_key m.id db.messages (m ∷ []) new ∙ ground arith) in
    (
      (price, prices),
      (rw e2 (find-append message_key m.id d.messages ms m here), stored),
      e2 ∙ rw e1 (ap (λ l. record db { messages = l }) (append_assoc db.messages (m ∷ []) ms)),
    )

pub insert_messages_inv :
    (ms : List Message) (db db' : Database)
    → insert_messages ms db ≡ ok (tt, db')
    → Priced ms × Stored ms db'.messages × (db' ≡ with_messages ms db)
unfolding insert_messages
insert_messages_inv ms db db' h =
    let (u, d, h1, h2) = >>=-eq-ok (insert_each ms) _ db h in
    let same : d ≡ db' = ground arith in insert_each_inv ms db db' (rw (← same) h1)

abbrev pub with_jobs : List DispatchJob → Database → Database
with_jobs js db = record db { jobs = db.jobs ++ js }

insert_job_inv :
    (j : DispatchJob) (db db' : Database)
    → insert_job j db ≡ ok (tt, db')
    → (find job_key j.id db.jobs ≡ none)
      × (find job_message_key j.message_id db.jobs ≡ none)
      × (db' ≡ with_jobs (j ∷ []) db)
unfolding insert_job
insert_job_inv j db db' h = (ground arith, ground arith, ground arith)

-- A job of the table is not linked with a message that no job of the table is linked with.
unlinked_ne :
    (k v : ℕ) (x : DispatchJob) (js : List DispatchJob)
    → find job_message_key v js ≡ none
    → find job_key k js ≡ some x
    → x.message_id ≢ v
unlinked_ne k v x [] h hx e = cc
unlinked_ne k v x (j ∷ js) h hx e = ground (arith, unlinked_ne k v x js)

module _ (j : DispatchJob) (js : List DispatchJob) (new : find job_key j.id js ≡ none) where
  -- Every job of the longer table is the new one, or one that was there before.
  find-insert_cases :
      (k : ℕ) (x : DispatchJob)
      → find job_key k (js ++ j ∷ []) ≡ some x
      → ((k ≡ j.id) × (x ≡ j)) ⊎ (find job_key k js ≡ some x)
  find-insert_cases k x hx = elim (Option-cases (find job_key k js)) [
    | inl missing ↦ inl (
      ground (arith, find-append_none job_key k js (j ∷ [])),
      ground (arith, find-append_none job_key k js (j ∷ [])),
    )
    | inr (y, hy) ↦ inr (ground (arith, find-append job_key k js (j ∷ []) y))
  ]

  Linked-insert :
      (m : Message) (ms : List Message)
      → find message_key j.message_id ms ≡ some m
      → agrees j.status m.payment_status ≡ true
      → Linked ms js
      → Linked ms (js ++ j ∷ [])
  Linked-insert m ms hm ag lk k x hx = elim (find-insert_cases k x hx) [
    | inl (ek, ex) ↦ (m, rw ex hm, rw ex ag)
    | inr old ↦ lk k x old
  ]

  Unshared-insert :
      find job_message_key j.message_id js ≡ none → Unshared js → Unshared (js ++ j ∷ [])
  Unshared-insert alone un k l x y hx hy e = ground (
    arith,
    find-insert_cases k x hx,
    find-insert_cases l y hy,
    un k l x y,
    unlinked_ne k j.message_id x js alone,
    unlinked_ne l j.message_id y js alone,
  )

-- Messages whose payment is reserved.
abbrev pub Reserved : List Message → Type 0
Reserved = All (λ m. m.payment_status ≡ PaymentStatus.reserved)

abbrev pub Tied : Database → Type 0
Tied db = Linked db.messages db.jobs × Unshared db.jobs × Keyed job_key db.jobs

pub insert_jobs_inv :
    (d : Draws) (now n : ℕ) (ms : List Message) (db db' : Database)
    → insert_jobs (new_jobs d now n ms) db ≡ ok (tt, db')
    → Reserved ms
    → Stored ms db.messages
    → Tied db
    → (db' ≡ with_jobs (new_jobs d now n ms) db) × Tied db'
unfolding new_jobs insert_jobs Jobs.create
insert_jobs_inv d now n [] db db' h r s t =
    let same : db ≡ db' = ground arith in
    (sym same ∙ ap (λ l. record db { jobs = l }) (sym (append-nil db.jobs)), subst Tied same t)
insert_jobs_inv d now n (m ∷ ms) db db' h r s t =
    let j = Jobs.create (d.job_id n) now m in
    let (u, d1, h1, h2) =
      >>=-eq-ok (insert_job j) (λ _. insert_jobs (new_jobs d now (suc n) ms)) db h in
    let (new, alone, e1) = insert_job_inv j db d1 h1 in
    let t1 : Tied (with_jobs (j ∷ []) db) = (
      Linked-insert j db.jobs new m db.messages s.0 (rw (r.0)) t.0,
      Unshared-insert j db.jobs new alone t.1,
      Keyed-insert job_key j db.jobs new t.2,
    ) in
    let s1 = subst (λ D. Stored ms D.messages) (sym e1) s.1 in
    let (e2, t2) = insert_jobs_inv d now (suc n) ms d1 db' h2 r.1 s1 (subst Tied (sym e1) t1) in
    (
      e2
          ∙ ap (with_jobs (new_jobs d now (suc n) ms)) e1
          ∙ ap (λ l. record db { jobs = l })
              (append_assoc db.jobs (j ∷ []) (new_jobs d now (suc n) ms)),
      t2,
    )
