-- ===== src/Ledger/Batches.antt =====
-- What `batch_create_message` of src/app/usecases/messages.py stores.
use abrio.Prelude.{ℕ, ◌≡◌, refl, sym, ◌∙◌, inl, inr, some, List, Option-cases}
use abrio.Prelude.Int.{ℤ}
use abrio.Domain.Errors.{
  Error, unique_violation, foreign_key_violation, check_violation, CheckConstraint,
}
use abrio.Database.Table.{find}
use abrio.Database.Rows.{Balance, Message, Database, balance_key}
use abrio.Database.Session.{Result, ok, err}
use abrio.Metrics.{World, record_submission_rejected}
use abrio.UseCases.Submission.{
  Prices, Draws, Item, BatchMessageRequest, new_messages, submit, calculate_batch_message_cost,
  refuse_batch, finish_batch, batch_create_message, check_duplicate_idempotency_keys,
}
use abrio.Ledger.Accounts.{reserved_more}
use abrio.Ledger.Consistent.{Inv, IsSound}
use abrio.Ledger.Submission.{submitted, submit-Inv}
use abrio.Ledger.Requests.{
  new_messages-OwnedBy, new_messages-Reserved, batch-total, record_priorities-db,
}

pub submit-accepted :
    (p : Prices) (d : Draws) (now u : ℕ) (items : List Item) (db db' : Database) (x : Unit {0})
    → Inv db
    → submit d now u (calculate_batch_message_cost p items) (new_messages p d now u 0 items) db
      ≡ ok (x, db')
    → (b : Balance) × (find balance_key u db.balances ≡ some b)
      × IsSound (reserved_more b (calculate_batch_message_cost p items))
      × (db'
          ≡ submitted d now
              (calculate_batch_message_cost p items)
              (new_messages p d now u 0 items)
              b
              db)
submit-accepted p d now u items db db' x inv h =
    let (b, hb, s, e, _, _) =
      submit-Inv d now u (calculate_batch_message_cost p items) (new_messages p d now u 0 items) db
        db' x h inv (new_messages-OwnedBy p d now u 0 items)
        (new_messages-Reserved p d now u 0 items) (batch-total p d now u items) in
    (b, hb, s, e)

-- The batch is stored as a whole and paid for, or nothing of it is.
abbrev pub AllOrNothing :
    Prices → Draws → ℕ → BatchMessageRequest → World → Result (List Message) × World → Type 0
AllOrNothing p d now r w (ok ms, w') =
    (ms ≡ new_messages p d now r.user_id 0 r.messages)
    × ((b : Balance) × (find balance_key r.user_id w.db.balances ≡ some b)
        × IsSound (reserved_more b (calculate_batch_message_cost p r.messages))
        × (w'.db ≡ submitted d now (calculate_batch_message_cost p r.messages) ms b w.db))
AllOrNothing p d now r w (err e, w') = w'.db ≡ w.db

refuse_batch-error :
    (p : Prices) (d : Draws) (now : ℕ) (r : BatchMessageRequest) (w : World) (cost : ℤ) (e : Error)
    → AllOrNothing p d now r w (refuse_batch r.user_id cost e w)
unfolding refuse_batch record_submission_rejected
refuse_batch-error p d now r w cost (Error.integrity unique_violation) = refl
refuse_batch-error p d now r w cost (Error.integrity foreign_key_violation) = refl
refuse_batch-error p d now r w cost
      (Error.integrity (check_violation CheckConstraint.check_credits_ge_reserved_credits)) =
    refl
refuse_batch-error p d now r w cost (Error.integrity (check_violation _)) = refl
refuse_batch-error p d now r w cost e = refl

finish_batch-AllOrNothing :
    (p : Prices) (d : Draws) (now : ℕ) (r : BatchMessageRequest) (w : World)
    (res : Result (Unit {0} × Database))
    → Inv w.db
    → res
      ≡ submit d now r.user_id
          (calculate_batch_message_cost p r.messages)
          (new_messages p d now r.user_id 0 r.messages)
          w.db
    → AllOrNothing p d now r w (
        finish_batch r.user_id
          (calculate_batch_message_cost p r.messages)
          (new_messages p d now r.user_id 0 r.messages)
          w
          res)
unfolding finish_batch
finish_batch-AllOrNothing p d now r w (ok (x, db')) inv h =
    let (b, hb, s, e) = submit-accepted p d now r.user_id r.messages w.db db' x inv (sym h) in
    let ms = new_messages p d now r.user_id 0 r.messages in
    (refl, (b, hb, s, record_priorities-db ms (record w { db = db' }) ∙ e))
finish_batch-AllOrNothing p d now r w (err e) inv h =
    refuse_batch-error p d now r w (calculate_batch_message_cost p r.messages) e

-- On a consistent database a batch is stored as a whole or not at all: an accepted one answers
-- with one new message for each item, and leaves the old rows with those messages, their jobs and
-- the reservation of the whole cost on a balance that covers it; one that ends in an error leaves
-- the database as it was.
pub batch_create_message-AllOrNothing :
    (p : Prices) (d : Draws) (now : ℕ) (r : BatchMessageRequest) (w : World)
    → Inv w.db
    → AllOrNothing p d now r w (batch_create_message p d now r w)
unfolding batch_create_message record_submission_rejected
batch_create_message-AllOrNothing p d now r w inv =
    elim (Option-cases (check_duplicate_idempotency_keys r)) [
      | inl e ↦
          rw (e, batch_create_message)
            (finish_batch-AllOrNothing p d now r w
              (submit d now r.user_id (calculate_batch_message_cost p r.messages)
                (new_messages p d now r.user_id 0 r.messages) w.db)
              inv refl)
      | inr (key, e) ↦ rw (e, batch_create_message) refl
    ]
