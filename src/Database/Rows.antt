-- ===== src/Database/Rows.antt =====
-- The mapped classes of src/infra/db/models. A UUID, a relay's or worker's name is a number that is
-- only compared; a datetime is a number of microseconds; a `Numeric(10, 2)` is an integer of cents.
-- `updated_at` and the audit columns that no code reads are left out.
use abrio.Prelude.{ℕ, List, Option, Text}
use abrio.Prelude.Int.{ℤ, ◌-ℤ◌}
use abrio.Domain.Enums.{MessagePriority, MessageStatus, PaymentStatus, DispatchJobStatus}

pub record User : Type 0 where
  pub id : ℕ
  pub name : Text

pub record Balance : Type 0 where
  pub user_id : ℕ
  pub credits : ℤ
  pub reserved_credits : ℤ

-- `Balance.available_credits`
unfoldable pub available_credits : Balance → ℤ
available_credits b = b.credits -ℤ b.reserved_credits

pub record Message : Type 0 where
  pub id : ℕ
  pub user_id : ℕ
  pub recipient : Text
  pub body : Text
  pub cost : ℤ
  pub priority : MessagePriority
  pub idempotency_key : ℕ
  pub status : MessageStatus
  pub payment_status : PaymentStatus
  pub created_at : ℕ

-- The JSON snapshot that `DispatchJobRepository.create` stores, before its numbers are printed.
pub record JobPayload : Type 0 where
  pub message_id : ℕ
  pub user_id : ℕ
  pub recipient : Text
  pub body : Text
  pub priority : MessagePriority
  pub cost : ℤ

pub record DispatchJob : Type 0 where
  pub id : ℕ
  pub message_id : ℕ
  pub user_id : ℕ
  pub payload : JobPayload
  pub priority : MessagePriority
  pub status : DispatchJobStatus
  pub retry_count : ℕ
  pub delivery_attempts : ℕ
  pub available_at : ℕ
  pub locked_at : Option ℕ
  pub locked_by : Option ℕ
  pub published_at : Option ℕ
  pub completed_at : Option ℕ
  pub provider_message_id : Option Text
  pub last_error : Option Text
  pub created_at : ℕ

pub record Database : Type 0 where
  pub users : List User
  pub balances : List Balance
  pub messages : List Message
  pub jobs : List DispatchJob

-- The columns by which rows are found.
abbrev pub user_key : User → ℕ
user_key u = u.id

abbrev pub balance_key : Balance → ℕ
balance_key b = b.user_id

abbrev pub message_key : Message → ℕ
message_key m = m.id

abbrev pub job_key : DispatchJob → ℕ
job_key j = j.id

abbrev pub job_message_key : DispatchJob → ℕ
job_message_key j = j.message_id
