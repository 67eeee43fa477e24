-- ===== src/Api/Routes.antt =====
-- The handlers of src/api/routes/messages.py and users.py, with the exception handler of
-- src/main.py. A payload that its schema refuses is answered 422 before the handler runs, and an
-- exception that is no `AppError` with 500: both answers are FastAPI's.
use abrio.Prelude.{ℕ, Bool, Option, none, some, List, Text, codes, if◌then◌else◌}
use abrio.Prelude.Int.{ℤ}
use abrio.Domain.Errors.{Error, status_code}
use abrio.Database.Rows.{User, Balance, Message, Database}
use abrio.Database.Session.{Result, ok, err}
use abrio.Repositories.Messages
use abrio.Metrics.{World}
use abrio.UseCases.Submission.{
  Prices, Draws, MessageRequest, BatchMessageRequest, create_message, batch_create_message,
}
use abrio.UseCases.Accounts
use abrio.Api.Schemas.{valid_request, valid_batch, valid_topup, valid_name}

-- `code` of each class of errors; another exception has none.
unfoldable pub error_code : Error → Option Text
error_code (Error.user_not_found _) = some (codes "user_not_found")
error_code (Error.invalid_amount_value _) = some (codes "invalid_amount_value")
error_code (Error.message_not_found _) = some (codes "message_not_found")
error_code Error.idempotency_conflict = some (codes "idempotency_conflict")
error_code (Error.idempotency_duplicate _) = some (codes "idempotency_duplicate")
error_code (Error.insufficient_balance _ _) = some (codes "insufficient_balance")
error_code _ = none

pub data Content (A : Type 0) : Type 0 where
  model : A → Content A
  -- The `code` of an `AppError`; its `message` is left out.
  app_error : Text → Content A
  server_error invalid_payload : Content A

pub record Response (A : Type 0) : Type 0 where
  pub status : ℕ
  pub content : Content A

module _ {A : Type 0} where
  abbrev content_of : Option Text → Content A
  content_of none = Content.server_error
  content_of (some code) = Content.app_error code

  -- `app_error_handler`
  unfoldable pub app_error_handler : Error → Response A
  unfolding error_code
  app_error_handler e = record { status = status_code e; content = content_of (error_code e) }

  abbrev pub unprocessable : Response A
  unprocessable = record { status = 422; content = Content.invalid_payload }

  -- What a handler returns, under the `status_code` of its route.
  unfoldable pub respond : ℕ → Result A → Response A
  unfolding app_error_handler
  respond status (ok a) = record { status = status; content = Content.model a }
  respond status (err e) = app_error_handler e

abbrev responded : {A W : Type 0} → ℕ → Result A × W → Response A × W
responded status (r, w) = (respond status r, w)

-- A transaction that only reads.
abbrev answered : {A : Type 0} → Result (A × Database) → Response A
answered (ok (a, _)) = respond 200 (ok a)
answered (err e) = respond 200 (err e)

module _ (digit : ℕ → Bool) where
  unfoldable pub send_message :
      Prices → Draws → ℕ → MessageRequest → World → Response Message × World
  send_message p d now payload w =
      if valid_request digit payload
      then responded 201 (create_message p d now payload w)
      else (unprocessable, w)

  unfoldable pub batch_send_message :
      ℕ → Prices → Draws → ℕ → BatchMessageRequest → World → Response (List Message) × World
  batch_send_message max_messages_per_batch p d now payload w =
      if valid_batch digit max_messages_per_batch payload
      then responded 201 (batch_create_message p d now payload w)
      else (unprocessable, w)

unfoldable pub get_message_by_id : ℕ → ℕ → Database → Response Message
get_message_by_id message_id user_id db = answered (Messages.get_user_message message_id user_id db)

unfoldable pub create_user : ℕ → Text → Database → Response User × Database
create_user id name db =
    if valid_name name then responded 201 (Accounts.create_user id name db) else (unprocessable, db)

unfoldable pub get_user : ℕ → Database → Response User
get_user user_id db = answered (Accounts.get_user user_id db)

unfoldable pub topup_user_balance : ℕ → ℤ → Database → Response Balance × Database
topup_user_balance user_id credit_amount db =
    if valid_topup credit_amount
    then responded 200 (Accounts.topup_user_credits user_id credit_amount db)
    else (unprocessable, db)

-- The route exists with `app_debug` only.
unfoldable pub zero_user_balance : ℕ → Database → Response Balance × Database
zero_user_balance user_id db = responded 200 (Accounts.zero_user_credits user_id db)
