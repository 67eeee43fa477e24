-- ===== src/Ledger/Consistent.antt =====
-- The invariant that ties the four tables together.
use abrio.Prelude.{ℕ, ◌≡◌, Bool, true, false, ◌&&◌, some, List, ◌==◌, if◌then◌else◌, is_some, All}
use abrio.Prelude.Int.{ℤ, pos, ◌≤ℤ◌, ◌<ℤ◌, ◌+ℤ◌}
use abrio.Domain.Enums.{PaymentStatus, DispatchJobStatus, payment_eq}
use abrio.Database.Table.{find, total, Keyed}
use abrio.Database.Rows.{Balance, Message, DispatchJob, Database, balance_key, message_key, job_key}
use abrio.Database.Constraints.{numeric_limit}

-- What a message adds to the sum over the messages of a user in one payment status.
abbrev pub cost_in : PaymentStatus → ℕ → Message → ℤ
cost_in p u m = if m.user_id == u && payment_eq m.payment_status p then m.cost else pos 0

abbrev pub total_in : PaymentStatus → ℕ → List Message → ℤ
total_in p u = total message_key (cost_in p u)

-- A balance that the CHECK constraints and the range of its columns admit.
pub record IsSound (b : Balance) : Type 0 where
  pub nonneg : pos 0 ≤ℤ b.reserved_credits
  pub covered : b.reserved_credits ≤ℤ b.credits
  pub bounded : b.credits <ℤ numeric_limit

-- The reserved credits of each balance are the costs of its user's reserved messages.
abbrev pub Funded : List Balance → List Message → Type 0
Funded bs ms =
    (u : ℕ) (b : Balance)
    → find balance_key u bs ≡ some b
    → IsSound b × (b.reserved_credits ≡ total_in PaymentStatus.reserved u ms)

abbrev pub Priced : List Message → Type 0
Priced = All (λ m. pos 0 <ℤ m.cost)

-- The user of every message has a balance.
abbrev pub Backed : List Balance → List Message → Type 0
Backed bs = All (λ m. is_some (find balance_key m.user_id bs) ≡ true)

abbrev pub agrees : DispatchJobStatus → PaymentStatus → Bool
agrees DispatchJobStatus.completed PaymentStatus.deducted = true
agrees DispatchJobStatus.completed _ = false
agrees DispatchJobStatus.failed PaymentStatus.refunded = true
agrees DispatchJobStatus.failed _ = false
agrees _ PaymentStatus.reserved = true
agrees _ _ = false

-- A job's message is in the table, paid for or refunded exactly if the job is over.
abbrev pub Linked : List Message → List DispatchJob → Type 0
Linked ms js =
    (k : ℕ) (j : DispatchJob)
    → find job_key k js ≡ some j
    → (m : Message) × (find message_key j.message_id ms ≡ some m)
      × (agrees j.status m.payment_status ≡ true)

abbrev pub Unshared : List DispatchJob → Type 0
Unshared js =
    (k l : ℕ) (i j : DispatchJob)
    → find job_key k js ≡ some i
    → find job_key l js ≡ some j
    → i.message_id ≡ j.message_id
    → k ≡ l

-- What a user holds and has spent together stays the same.
abbrev pub Conserves : Database → Database → Type 0
Conserves db db' =
    (u : ℕ) (b : Balance)
    → find balance_key u db.balances ≡ some b
    → (b' : Balance) × (find balance_key u db'.balances ≡ some b')
      × (b'.credits +ℤ total_in PaymentStatus.deducted u db'.messages
          ≡ b.credits +ℤ total_in PaymentStatus.deducted u db.messages)

pub record Inv (db : Database) : Type 0 where
  pub funded : Funded db.balances db.messages
  pub priced : Priced db.messages
  pub backed : Backed db.balances db.messages
  pub linked : Linked db.messages db.jobs
  pub unshared : Unshared db.jobs
  pub keyed : Keyed job_key db.jobs
