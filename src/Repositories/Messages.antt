-- ===== src/Repositories/Messages.antt =====
-- src/infra/db/repositories/messages.py (`MessageRepository`).
use abrio.Prelude.{
  ℕ, Bool, ◌&&◌, Option, none, some, List, [], ◌∷◌, ◌==◌, if◌then◌else◌, keep, length,
}
use abrio.Domain.Enums.{MessageStatus, PaymentStatus, message_status_eq, payment_eq}
use abrio.Domain.Errors.{Error}
use abrio.Database.Table.{find}
use abrio.Database.Rows.{Message, message_key}
use abrio.Database.Session.{Tx, gets, or_raise, ◌>>=◌}

unfoldable pub get_user_messages : ℕ → List Message → List Message
get_user_messages user_id = keep (λ m. m.user_id == user_id)

-- The first row that passes a test.
unfoldable pub first : (Message → Bool) → List Message → Option Message
first p [] = none
first p (m ∷ ms) = if p m then some m else first p ms

unfoldable pub get_user_message_by_idempotency_key : ℕ → ℕ → Tx Message
unfolding first
get_user_message_by_idempotency_key user_id key = do
  message ← gets (λ db. first (λ m. m.idempotency_key == key && m.user_id == user_id) db.messages)
  or_raise message (Error.message_not_found key)

unfoldable pub get_user_message : ℕ → ℕ → Tx Message
unfolding first
get_user_message message_id user_id = do
  message ← gets (λ db. first (λ m. m.id == message_id && m.user_id == user_id) db.messages)
  or_raise message (Error.message_not_found message_id)

unfoldable pub get_for_update : ℕ → Tx Message
get_for_update message_id = do
  message ← gets (λ db. find message_key message_id db.messages)
  or_raise message (Error.message_not_found message_id)

unfoldable pub mark_dispatching : Message → Message
mark_dispatching m = record m { status = MessageStatus.dispatching }

unfoldable pub mark_sent : Message → Message
mark_sent m = record m { status = MessageStatus.sent; payment_status = PaymentStatus.deducted }

unfoldable pub mark_retryable_failure : Message → Message
mark_retryable_failure m = record m {
  status = MessageStatus.failed;
  payment_status = PaymentStatus.reserved;
}

unfoldable pub mark_permanent_failure : Message → Message
mark_permanent_failure m = record m {
  status = MessageStatus.permanent_failed;
  payment_status = PaymentStatus.refunded;
}

-- The dictionary of `calculate_summary`.
pub record Summary : Type 0 where
  pub user_id : ℕ
  pub total : ℕ
  pub queued : ℕ
  pub dispatching : ℕ
  pub failed : ℕ
  pub sent : ℕ
  pub permanent_failed : ℕ
  pub reserved : ℕ
  pub deducted : ℕ
  pub refunded : ℕ

-- `func.count(Message.id).filter(...)` over the rows of one user.
abbrev pub count_status : MessageStatus → List Message → ℕ
count_status s ms = length (keep (λ m. message_status_eq m.status s) ms)

abbrev pub count_payment : PaymentStatus → List Message → ℕ
count_payment p ms = length (keep (λ m. payment_eq m.payment_status p) ms)

unfoldable pub calculate_summary : ℕ → List Message → Summary
calculate_summary user_id all =
    let ms = keep (λ m. m.user_id == user_id) all in
    record {
      user_id = user_id;
      total = length ms;
      queued = count_status MessageStatus.queued ms;
      dispatching = count_status MessageStatus.dispatching ms;
      failed = count_status MessageStatus.failed ms;
      sent = count_status MessageStatus.sent ms;
      permanent_failed = count_status MessageStatus.permanent_failed ms;
      reserved = count_payment PaymentStatus.reserved ms;
      deducted = count_payment PaymentStatus.deducted ms;
      refunded = count_payment PaymentStatus.refunded ms;
    }
