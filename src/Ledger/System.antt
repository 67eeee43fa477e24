-- ===== src/Ledger/System.antt =====
-- The running system as a step relation on the database. Each step is one committed transaction of a
-- component, on whatever the steps before it left; transactions of several requests, relays and
-- workers interleave in any order.
use abrio.Prelude.{
  ℕ, ◌≡◌, refl, sym, subst, ap, ◌∙◌, inl, inr, Bool, Option, some, List, [], ◌∷◌, Text, ◌==◌,
  Bool-cases, if◌then◌else◌, ==→eq, arith, elem,
}
use abrio.Prelude.Int.{ℤ, pos, ◌+ℤ◌, int_laws}
use abrio.Domain.Enums.{MessagePriority, PaymentStatus}
use abrio.Database.Table.{find, save, find-save_self, find-save_ne, find_key}
use abrio.Database.Rows.{Balance, User, DispatchJob, Database, balance_key}
use abrio.Database.Session.{Result, ok}
use abrio.Repositories.Balances
use abrio.Repositories.Jobs
use abrio.Repositories.Claim.{claim_batch, lock_for, select_batch, candidates}
use abrio.Metrics.{World}
use abrio.UseCases.Accounts.{insert_user}
use abrio.UseCases.Submission.{
  Prices, Draws, MessageRequest, BatchMessageRequest, create_message, batch_create_message,
}
use abrio.UseCases.Dispatch.{
  DispatchSettings, Clock, Claim, ProviderResult, Recorded, claim, record_tx,
}
use abrio.Ledger.Consistent.{Inv, Conserves, total_in}
use abrio.Ledger.Delivery.{Lands, IsNamed, claim-Lands, record_tx-Lands}
use abrio.Ledger.Requests.{Safe, create_message-Safe, batch_create_message-Safe}
use abrio.Ledger.Operations.{
  with_table, update-Inv, mark_published-Inv, mark_publish_retry-Inv, reclaim-Inv,
}
use abrio.Ledger.Deposits.{topup-Inv, insert_user-Inv}

-- A committed top-up, as the deposit it makes.
pub record Deposit : Type 0 where
  pub user_id : ℕ
  pub amount : ℤ

-- One transaction that moves no money in or out.
pub data Step : Database → Database → Type 0 where
  submits :
      (p : Prices) (d : Draws) (now : ℕ) (r : MessageRequest) (w : World)
      → Step w.db (create_message p d now r w).1.db
  submits_batch :
      (p : Prices) (d : Draws) (now : ℕ) (r : BatchMessageRequest) (w : World)
      → Step w.db (batch_create_message p d now r w).1.db
  creates_user :
      (id : ℕ) (name : Text) (db db' : Database) (r : User)
      → insert_user id name db ≡ ok (r, db')
      → Step db db'
  relay_claims :
      (q : MessagePriority) (relay_id limit lease_seconds per_user_limit now : ℕ)
      (locked : ℕ → Bool) (db : Database)
      → Step db (
          with_table
            (claim_batch q relay_id limit lease_seconds per_user_limit locked now db.jobs).1
            db)
  relay_publishes :
      (job_ids : List ℕ) (relay_id now : ℕ) (db : Database)
      → Step db (with_table (Jobs.mark_published job_ids relay_id now db.jobs) db)
  relay_retries :
      (job_ids : List ℕ) (relay_id : ℕ) (error : Text) (delay now : ℕ) (db : Database)
      → Step db (with_table (Jobs.mark_publish_retry job_ids relay_id error delay now db.jobs) db)
  relay_reaps :
      (q : MessagePriority) (now lease_seconds limit : ℕ) (db : Database)
      → Step db (with_table (Jobs.reclaim_stale_inflight q now lease_seconds limit db.jobs).1 db)
  worker_claims :
      (s : DispatchSettings) (c : Clock) (job_id worker_id : ℕ) (db db' : Database) (r : Claim)
      → claim s c job_id worker_id db ≡ ok (r, db')
      → Step db db'
  worker_records :
      (s : DispatchSettings) (c : Clock) (jitter job_id worker_id : ℕ) (result : ProviderResult)
      (db db' : Database) (r : Option Recorded)
      → IsNamed result
      → record_tx s c jitter job_id worker_id result db ≡ ok (r, db')
      → Step db db'

-- A history of transactions, the last one first, with the deposits it took in.
pub data Run (start : Database) : List Deposit → Database → Type 0 where
  begins : Run start [] start
  steps : (ds : List Deposit) (db db' : Database) → Run start ds db → Step db db' → Run start ds db'
  tops_up :
      (u : ℕ) (a : ℤ) (r : Balance) (ds : List Deposit) (db db' : Database)
      → Run start ds db
      → Balances.topup_user_credits u a db ≡ ok (r, db')
      → Run start (record { user_id = u; amount = a } ∷ ds) db'

Lands-ok :
    {A : Type 0} (db db' : Database) (r : A) (x : Result (A × Database))
    → x ≡ ok (r, db')
    → Lands db x
    → Safe db db'
Lands-ok db db' r x e l = subst (Lands db) e l

-- A write of jobs alone moves no money.
same_money : (db : Database) (js : List DispatchJob) → Conserves db (with_table js db)
same_money db js u b hb = (b, hb, refl)

pub claim_batch-Inv :
    (q : MessagePriority) (relay_id limit lease_seconds per_user_limit now : ℕ) (locked : ℕ → Bool)
    (db : Database)
    → Inv db
    → Inv (
        with_table
          (claim_batch q relay_id limit lease_seconds per_user_limit locked now db.jobs).1
          db)
unfolding claim_batch lock_for
claim_batch-Inv q relay_id limit lease_seconds per_user_limit now locked db inv =
    let jobs = select_batch locked limit per_user_limit (candidates q now lease_seconds db.jobs) in
    update-Inv (λ j. elem j.id (Jobs.ids jobs)) (lock_for now relay_id) (λ j. refl) (λ j. refl)
      db.jobs (λ k j s hj e a. a) db.users db.balances db.messages inv

-- Every transaction keeps the ledger consistent and, for each user, what is held and spent.
pub Step-Safe : (db db' : Database) → Step db db' → Inv db → Safe db db'
Step-Safe db db' (Step.submits p d now r w) inv = create_message-Safe p d now w inv r
Step-Safe db db' (Step.submits_batch p d now r w) inv = batch_create_message-Safe p d now w inv r
Step-Safe db db' (Step.creates_user id name _ _ r h) inv = insert_user-Inv id name db db' r inv h
Step-Safe db db' (Step.relay_claims q o n l k t g _) inv =
    (claim_batch-Inv q o n l k t g db inv, same_money db (claim_batch q o n l k g t db.jobs).1)
Step-Safe db db' (Step.relay_publishes is o t _) inv =
    (mark_published-Inv is o t db inv, same_money db (Jobs.mark_published is o t db.jobs))
Step-Safe db db' (Step.relay_retries is o e k t _) inv = (
  mark_publish_retry-Inv is o e k t db inv,
  same_money db (Jobs.mark_publish_retry is o e k t db.jobs),
)
Step-Safe db db' (Step.relay_reaps q t l n _) inv =
    (reclaim-Inv q t l n db inv, same_money db (Jobs.reclaim_stale_inflight q t l n db.jobs).1)
Step-Safe db db' (Step.worker_claims s c j o _ _ r h) inv =
    Lands-ok db db' r (claim s c j o db) h (claim-Lands s c j o db inv)
Step-Safe db db' (Step.worker_records s c k j o x _ _ r n h) inv =
    Lands-ok db db' r (record_tx s c k j o x db) h (record_tx-Lands s c k x n db inv j o)

-- Any history of transactions (submissions, users created, top-ups, relay claims, publications,
-- retries and reapings, worker claims and records of named results), interleaved in any order,
-- leads a consistent database to a consistent one: each balance satisfies its constraints and
-- reserves exactly the costs of its user's reserved messages, and each job agrees with the payment
-- of its message.
pub Run-Inv : (start db : Database) (ds : List Deposit) → Run start ds db → Inv start → Inv db
Run-Inv start db ds Run.begins inv = inv
Run-Inv start db ds (Run.steps _ mid _ r s) inv =
    (Step-Safe mid db s (Run-Inv start mid ds r inv)).0
Run-Inv start db ds (Run.tops_up u a x rest mid _ r h) inv =
    (topup-Inv u a mid db x (Run-Inv start mid rest r inv) h).0

-- The deposits of one user.
abbrev pub deposited : ℕ → List Deposit → ℤ
deposited u [] = pos 0
deposited u (d ∷ ds) = (if d.user_id == u then d.amount else pos 0) +ℤ deposited u ds

-- The user's credits and what the messages delivered have cost.
abbrev pub worth : ℕ → Balance → Database → ℤ
worth u b db = b.credits +ℤ total_in PaymentStatus.deducted u db.messages

topup-worth :
    (u v : ℕ) (a : ℤ) (db db' : Database) (r b : Balance)
    → Inv db
    → Balances.topup_user_credits u a db ≡ ok (r, db')
    → find balance_key v db.balances ≡ some b
    → (b' : Balance) × (find balance_key v db'.balances ≡ some b')
      × (worth v b' db' ≡ worth v b db +ℤ (if u == v then a else pos 0))
topup-worth u v a db db' r b inv h hb =
    let (good, em, eb, (o, ho, eo)) = topup-Inv u a db db' r inv h in
    let found : (k : ℕ)
        → find balance_key k db'.balances ≡ find balance_key k (save balance_key r db.balances) =
      λ k. ap (find balance_key k) eb in
    let spent : total_in PaymentStatus.deducted v db'.messages
        ≡ total_in PaymentStatus.deducted v db.messages =
      ap (total_in PaymentStatus.deducted v) em in
    let ro : r.user_id ≡ u = ap (λ y. y.user_id) eo ∙ find_key balance_key u db.balances o ho in
    elim (Bool-cases (u == v)) [
      | inl e ↦
          let ob : o ≡ b = ground (arith, ==→eq u v e) in
          let rc : r.credits ≡ b.credits +ℤ a =
            ap (λ y. y.credits) eo ∙ ap (λ y. y.credits +ℤ a) ob in
          let here : find balance_key r.user_id db.balances ≡ some o =
            subst (λ k. find balance_key k db.balances ≡ some o) (sym ro) ho in
          let own : find balance_key v db'.balances ≡ some r =
            found v
            ∙ subst (λ k. find balance_key k (save balance_key r db.balances) ≡ some r)
                (ro ∙ ==→eq u v e) (find-save_self balance_key r o db.balances here) in
          (r, own, rw (e, spent, rc) (omega int_laws))
      | inr n ↦ (
        b,
        found v ∙ find-save_ne balance_key v r db.balances (ground arith) ∙ hb,
        rw (n, spent) (omega int_laws),
      )
    ]

-- From a consistent start, at the end of any history of transactions each user of the start holds
-- a balance whose credits, with the costs of the user's deducted messages, are those of the start
-- plus the user's deposits since.
pub Run-worth :
    (start db : Database) (ds : List Deposit)
    → Run start ds db
    → Inv start
    → (u : ℕ) (b : Balance) → find balance_key u start.balances ≡ some b
    → (b' : Balance) × (find balance_key u db.balances ≡ some b')
      × (worth u b' db ≡ worth u b start +ℤ deposited u ds)
Run-worth start db ds Run.begins inv u b hb = (b, hb, omega int_laws)
Run-worth start db ds (Run.steps _ mid _ r s) inv u b hb =
    let (x, hx, ex) = Run-worth start mid ds r inv u b hb in
    let (y, hy, ey) = (Step-Safe mid db s (Run-Inv start mid ds r inv)).1 u x hx in (y, hy, ey ∙ ex)
Run-worth start db ds (Run.tops_up v a x rest mid _ r h) inv u b hb =
    let (y, hy, ey) = Run-worth start mid rest r inv u b hb in
    let (z, hz, ez) = topup-worth v u a mid db x y (Run-Inv start mid rest r inv) h hy in
    (z, hz, ez ∙ ap (λ y. y +ℤ (if v == u then a else pos 0)) ey ∙ omega int_laws)
