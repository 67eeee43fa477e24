-- ===== src/Domain/Errors.antt =====
-- src/domain/errors.py, and the driver's exceptions (psycopg.errors) that the handlers catch.
use abrio.Prelude.{ℕ}
use abrio.Prelude.Int.{ℤ}

-- The named CHECK constraints of src/infra/db/models.
pub data CheckConstraint : Type 0 where
  check_credits_ge_reserved_credits check_credits_non_negative : CheckConstraint
  check_reserved_credits_non_negative check_cost_gt_zero : CheckConstraint

-- `IntegrityError.orig`.
pub data IntegrityError : Type 0 where
  unique_violation foreign_key_violation : IntegrityError
  check_violation : CheckConstraint → IntegrityError

-- What a handler can raise: an `AppError`, or an exception that it does not turn into one.
pub data Error : Type 0 where
  user_not_found : ℕ → Error
  invalid_amount_value : ℤ → Error
  message_not_found : ℕ → Error
  idempotency_conflict : Error
  idempotency_duplicate : ℕ → Error
  insufficient_balance : ℕ → ℤ → Error
  integrity : IntegrityError → Error
  -- A value out of the range of its column (`DataError`).
  out_of_range : Error
  payment_not_reserved : Error
  no_provider_message_id : Error

-- `status_code` of each class, and what FastAPI answers to an exception that is no `AppError`.
unfoldable pub status_code : Error → ℕ
status_code (user_not_found _) = 404
status_code (invalid_amount_value _) = 400
status_code (message_not_found _) = 404
status_code idempotency_conflict = 400
status_code (idempotency_duplicate _) = 400
status_code (insufficient_balance _ _) = 402
status_code _ = 500
