-- ===== src/Ledger/Answers.antt =====
-- What the two submissions of src/app/usecases/messages.py and the summary of
-- src/infra/db/repositories/messages.py answer.
use abrio.Prelude.{
  ℕ, ◌+◌, ◌≡◌, refl, inl, inr, true, false, ◌&&◌, some, List, [], ◌∷◌, ◌==◌, length, keep,
  Bool-cases, arith,
}
use abrio.Prelude.Int.{ℤ, pos, leb_ℤ}
use abrio.Domain.Enums.{MessageStatus, PaymentStatus}
use abrio.Domain.Errors.{Error, unique_violation}
use abrio.Database.Rows.{Message, Database}
use abrio.Database.Session.{>>=-eq-err, ok, err}
use abrio.Database.Constraints.{
  in_range, message_conflicts, insert_message, insert_each, insert_messages,
}
use abrio.Repositories.Messages
use abrio.Repositories.Messages.{first, count_status, count_payment}
use abrio.Metrics.{World, record_idempotent_replay, SubmissionType}
use abrio.UseCases.Submission.{
  Prices, Draws, MessageRequest, new_message, submit, get_message_cost, create_message,
  finish_single, refuse_single,
}

first-conflicts :
    (k u : ℕ) (x m : Message) (ms : List Message)
    → x.user_id ≡ u
    → x.idempotency_key ≡ k
    → first (λ y. y.idempotency_key == k && y.user_id == u) ms ≡ some m
    → message_conflicts x ms ≡ true
unfolding first message_conflicts
first-conflicts k u x m [] eu ek h = cc
first-conflicts k u x m (y ∷ ms) eu ek h =
    elim (Bool-cases (y.idempotency_key == k && y.user_id == u)) [
      | inl e ↦ ground arith
      | inr e ↦ let rest = first-conflicts k u x m ms eu ek (ground arith) in ground arith
    ]

insert_message-conflict :
    (m : Message) (db : Database)
    → in_range m.cost ≡ true
    → leb_ℤ m.cost (pos 0) ≡ false
    → message_conflicts m db.messages ≡ true
    → insert_message m db ≡ err (Error.integrity unique_violation)
unfolding insert_message
insert_message-conflict m db range price c = ground arith

submit-conflict :
    (d : Draws) (now u : ℕ) (cost : ℤ) (m : Message) (db : Database)
    → insert_message m db ≡ err (Error.integrity unique_violation)
    → submit d now u cost (m ∷ []) db ≡ err (Error.integrity unique_violation)
unfolding submit insert_messages insert_each
submit-conflict d now u cost m db h =
    let e = Error.integrity unique_violation in
    >>=-eq-err (insert_messages (m ∷ [])) _ db e
      (>>=-eq-err (insert_each (m ∷ [])) _ db e (>>=-eq-err (insert_message m) _ db e h))

-- A request whose idempotency key its user has used is answered with the message that has the key,
-- writes nothing, and counts as a replay, if its price is in the range of the column and positive.
pub create_message-replay :
    (p : Prices) (d : Draws) (now : ℕ) (r : MessageRequest) (w : World) (m : Message)
    → first
        (λ y. y.idempotency_key == r.item.idempotency_key && y.user_id == r.user_id)
        w.db.messages
      ≡ some m
    → in_range (get_message_cost p r.item) ≡ true
    → leb_ℤ (get_message_cost p r.item) (pos 0) ≡ false
    → create_message p d now r w ≡ (ok m, record_idempotent_replay SubmissionType.single w)
unfolding create_message finish_single refuse_single new_message
    Messages.get_user_message_by_idempotency_key
create_message-replay p d now r w m h range price =
    let x = new_message p now r.user_id (d.message_id 0) r.item in
    let c = first-conflicts r.item.idempotency_key r.user_id x m w.db.messages refl refl h in
    rw (
      submit-conflict d now r.user_id (get_message_cost p r.item) x w.db
          (insert_message-conflict x w.db range price c),
      h,
    )

by_status :
    (ms : List Message)
    → count_status MessageStatus.queued ms
        + count_status MessageStatus.dispatching ms
        + count_status MessageStatus.failed ms
        + count_status MessageStatus.sent ms
        + count_status MessageStatus.permanent_failed ms
      ≡ length ms
by_status [] = refl
by_status (m ∷ ms) = ground (arith, by_status ms)

by_payment :
    (ms : List Message)
    → count_payment PaymentStatus.reserved ms
        + count_payment PaymentStatus.deducted ms
        + count_payment PaymentStatus.refunded ms
      ≡ length ms
by_payment [] = refl
by_payment (m ∷ ms) = ground (arith, by_payment ms)

-- In a user's summary the counts by status add up to the total, so do those by payment status, and
-- the total is the number of the user's messages.
calculate_summary_lem :
    (u : ℕ) (ms : List Message)
    → let s = Messages.calculate_summary u ms in
      (s.queued + s.dispatching + s.failed + s.sent + s.permanent_failed ≡ s.total)
      × (s.reserved + s.deducted + s.refunded ≡ s.total)
      × (s.total ≡ length (Messages.get_user_messages u ms))
unfolding Messages.calculate_summary Messages.get_user_messages
calculate_summary_lem u ms =
    (by_status (keep (λ m. m.user_id == u) ms), by_payment (keep (λ m. m.user_id == u) ms), refl)
