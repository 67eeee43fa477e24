-- ===== src/Ledger/Verdict.antt =====
-- The answer of `create_message` of src/app/usecases/messages.py by what its user's balance can pay.
use abrio.Prelude.{ℕ, ◌≡◌, inl, inr, [], ◌∷◌, Bool-cases, if◌then◌else◌, arith}
use abrio.Prelude.Int.{pos, ◌+ℤ◌, ◌<ℤ◌, ltb_ℤ, leb_ℤ}
use abrio.Domain.Errors.{Error}
use abrio.Database.Rows.{Balance, Message}
use abrio.Database.Session.{Result, ok, err}
use abrio.Database.Constraints.{numeric_limit}
use abrio.Metrics.{
  World, SubmissionType, RejectionReason, record_messages_submitted, record_submission_rejected,
}
use abrio.UseCases.Submission.{
  Prices, Draws, MessageRequest, new_message, create_message, finish_single, refuse_single,
}
use abrio.Ledger.Consistent.{Inv}
use abrio.Ledger.Submission.{submitted}
use abrio.Ledger.Admission.{IsFresh, IsAccount, submit_ok, submit_short, submit_over}

-- The message is accepted exactly if the reservation stays within the credits; one that leaves the
-- range of the column is an error of the driver.
abbrev pub verdict : Draws → ℕ → MessageRequest → Message → Balance → World → Result Message × World
verdict d now r m b w =
    if ltb_ℤ (b.reserved_credits +ℤ m.cost) numeric_limit
    then if leb_ℤ (b.reserved_credits +ℤ m.cost) b.credits
      then (
        ok m,
        record_messages_submitted m.priority SubmissionType.single 1
            (record w { db = submitted d now m.cost (m ∷ []) b w.db }),
      )
      else (
        err (Error.insufficient_balance m.user_id m.cost),
        record_submission_rejected RejectionReason.insufficient_balance SubmissionType.single w,
      )
    else (err Error.out_of_range, w)

-- On a consistent database, for a user with a row and a balance, ids and a key that no row has,
-- and a positive price in the range of its column, the submission of one message is the verdict of
-- the balance: accepted with its rows, its job, the reservation of its cost and one count if the
-- reserved credits with the cost stay within the credits; else refused as insufficient with only
-- that counted; an error of the driver if the sum leaves the range of the column.
pub create_message-verdict :
    (p : Prices) (d : Draws) (now : ℕ) (r : MessageRequest) (b : Balance) (w : World)
    → let m = new_message p now r.user_id (d.message_id 0) r.item in
      Inv w.db
      → IsAccount m.user_id b w.db
      → IsFresh (d.job_id 0) m w.db
      → pos 0 <ℤ m.cost
      → m.cost <ℤ numeric_limit
      → create_message p d now r w ≡ verdict d now r m b w
unfolding create_message finish_single refuse_single new_message
create_message-verdict p d now r b w inv acc fresh price range =
    let m = new_message p now r.user_id (d.message_id 0) r.item in
    let sum = b.reserved_credits +ℤ m.cost in
    elim (Bool-cases (ltb_ℤ sum numeric_limit)) [
      | inl bounded ↦ elim (Bool-cases (leb_ℤ sum b.credits)) [
        | inl paid ↦
            rw (submit_ok d now m b w.db inv acc fresh price range (ground arith), bounded, paid)
        | inr short ↦ rw (
          submit_short d now m b w.db inv acc fresh price range (ground arith) (ground arith),
          bounded,
          short,
        )
      ]
      | inr over ↦ rw (submit_over d now m b w.db inv acc fresh price range (ground arith), over)
    ]
