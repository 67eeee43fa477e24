-- ===== src/UseCases/Submission.antt =====
-- src/app/usecases/messages.py (`MessageUseCase`): the submission of one message and of a batch.
-- The ids that `uuid4` draws and the server's time are arguments. Log lines are left out.
use abrio.Prelude.{ℕ, suc, true, false, Option, none, some, List, [], ◌∷◌, Text, keep, length, elem}
use abrio.Prelude.Int.{ℤ, pos, ◌+ℤ◌}
use abrio.Domain.Enums.{MessagePriority, MessageStatus, PaymentStatus, priority_eq}
use abrio.Domain.Errors.{
  Error, unique_violation, foreign_key_violation, check_violation,
  check_credits_ge_reserved_credits,
}
use abrio.Database.Rows.{Message, DispatchJob, Database}
use abrio.Database.Session.{Result, ok, err, Tx, pure, ◌>>◌}
use abrio.Database.Constraints.{insert_messages, insert_jobs}
use abrio.Repositories.Balances
use abrio.Repositories.Messages
use abrio.Repositories.Jobs
use abrio.Metrics.{
  World, SubmissionType, single, batch, RejectionReason, record_messages_submitted,
  record_submission_rejected, record_idempotent_replay,
}

-- The two prices of `Settings`.
pub record Prices : Type 0 where
  pub cost_per_message : ℤ
  pub cost_per_express_message : ℤ

-- `BatchMessageRequestItem`; with a `user_id` it is a `MessageRequest`.
pub record Item : Type 0 where
  pub recipient : Text
  pub body : Text
  pub priority : MessagePriority
  pub idempotency_key : ℕ

pub record MessageRequest : Type 0 where
  pub user_id : ℕ
  pub item : Item

pub record BatchMessageRequest : Type 0 where
  pub user_id : ℕ
  pub messages : List Item

-- The ids drawn for the n-th message and for the n-th job.
pub record Draws : Type 0 where
  pub message_id : ℕ → ℕ
  pub job_id : ℕ → ℕ

price_of : Prices → MessagePriority → ℤ
price_of p MessagePriority.normal = p.cost_per_message
price_of p MessagePriority.express = p.cost_per_express_message

unfoldable pub get_message_cost : Prices → Item → ℤ
unfolding price_of
get_message_cost p i = price_of p i.priority

unfoldable pub add_costs : Prices → ℤ → List Item → ℤ
add_costs p cost [] = cost
add_costs p cost (i ∷ items) = add_costs p (cost +ℤ get_message_cost p i) items

unfoldable pub calculate_batch_message_cost : Prices → List Item → ℤ
unfolding add_costs
calculate_batch_message_cost p = add_costs p (pos 0)

-- `MessageRepository.create_message`, with the defaults of the columns.
unfoldable pub new_message : Prices → ℕ → ℕ → ℕ → Item → Message
new_message p now user_id id i = record {
  id = id;
  user_id = user_id;
  recipient = i.recipient;
  body = i.body;
  cost = get_message_cost p i;
  priority = i.priority;
  idempotency_key = i.idempotency_key;
  status = MessageStatus.queued;
  payment_status = PaymentStatus.reserved;
  created_at = now;
}

unfoldable pub new_messages : Prices → Draws → ℕ → ℕ → ℕ → List Item → List Message
unfolding new_message
new_messages p d now user_id n [] = []
new_messages p d now user_id n (i ∷ items) =
    new_message p now user_id (d.message_id n) i ∷ new_messages p d now user_id (suc n) items

unfoldable pub new_jobs : Draws → ℕ → ℕ → List Message → List DispatchJob
new_jobs d now n [] = []
new_jobs d now n (m ∷ ms) = Jobs.create (d.job_id n) now m ∷ new_jobs d now (suc n) ms

-- The writes of a submission: messages, dispatch jobs, reservation.
unfoldable pub submit : Draws → ℕ → ℕ → ℤ → List Message → Tx (Unit {0})
submit d now user_id cost ms = do
  insert_messages ms
  insert_jobs (new_jobs d now 0 ms)
  Balances.reserve_credits user_id cost
  pure tt

abbrev fail_with :
    {A : Type 0} → RejectionReason → SubmissionType → Error → World → Result A × World
fail_with reason kind e w = (err e, record_submission_rejected reason kind w)

-- The answer to a replayed key: the message that holds it.
replay : Result (Message × Database) → World → Result Message × World
replay (ok (m, db)) w = (ok m, record_idempotent_replay single w)
replay (err e) w = (err e, w)

-- The `except IntegrityError` of `create_message`; any other exception passes through.
unfoldable pub refuse_single : MessageRequest → ℤ → Error → World → Result Message × World
unfolding replay
refuse_single r cost (Error.integrity unique_violation) w =
    replay (Messages.get_user_message_by_idempotency_key r.user_id r.item.idempotency_key w.db) w
refuse_single r cost (Error.integrity foreign_key_violation) w =
    fail_with RejectionReason.invalid_request single (Error.user_not_found r.user_id) w
refuse_single r cost (Error.integrity (check_violation check_credits_ge_reserved_credits)) w =
    fail_with RejectionReason.insufficient_balance single
      (Error.insufficient_balance r.user_id cost) w
refuse_single r cost (Error.integrity e) w =
    fail_with RejectionReason.database_error single (Error.integrity e) w
refuse_single r cost e w = (err e, w)

-- The end of the call, by how the transaction ended; an exception has rolled it back.
unfoldable pub finish_single :
    MessageRequest → ℤ → Message → World → Result (Unit {0} × Database) → Result Message × World
unfolding refuse_single
finish_single r cost m w (ok (_, db')) =
    (ok m, record_messages_submitted r.item.priority single 1 (record w { db = db' }))
finish_single r cost m w (err e) = refuse_single r cost e w

unfoldable pub create_message : Prices → Draws → ℕ → MessageRequest → World → Result Message × World
create_message p d now r w =
    let cost = get_message_cost p r.item in
    let m = new_message p now r.user_id (d.message_id 0) r.item in
    finish_single r cost m w (submit d now r.user_id cost (m ∷ []) w.db)

-- The first key that an earlier item has.
unfoldable pub find_duplicate : List ℕ → List Item → Option ℕ
find_duplicate seen [] = none
find_duplicate seen (i ∷ items) =
    let rest = find_duplicate (i.idempotency_key ∷ seen) items in
    elim (elem i.idempotency_key seen) [ true ↦ some i.idempotency_key | false ↦ rest ]

unfoldable pub check_duplicate_idempotency_keys : BatchMessageRequest → Option ℕ
unfolding find_duplicate
check_duplicate_idempotency_keys r = find_duplicate [] r.messages

unfoldable pub refuse_batch : ℕ → ℤ → Error → World → Result (List Message) × World
refuse_batch user_id cost (Error.integrity unique_violation) w =
    fail_with RejectionReason.idempotency_conflict batch Error.idempotency_conflict w
refuse_batch user_id cost (Error.integrity foreign_key_violation) w =
    fail_with RejectionReason.invalid_request batch (Error.user_not_found user_id) w
refuse_batch user_id cost (Error.integrity (check_violation check_credits_ge_reserved_credits)) w =
    fail_with RejectionReason.insufficient_balance batch (Error.insufficient_balance user_id cost) w
refuse_batch user_id cost (Error.integrity e) w =
    fail_with RejectionReason.database_error batch (Error.integrity e) w
refuse_batch user_id cost e w = (err e, w)

abbrev count_priority : MessagePriority → List Message → ℕ
count_priority p ms = length (keep (λ m. priority_eq m.priority p) ms)

record_pair : MessagePriority → MessagePriority → List Message → World → World
record_pair p q ms w =
    record_messages_submitted q batch (count_priority q ms)
      (record_messages_submitted p batch (count_priority p ms) w)

unfoldable pub record_from : MessagePriority → List Message → World → World
unfolding record_pair
record_from MessagePriority.normal = record_pair MessagePriority.normal MessagePriority.express
record_from MessagePriority.express = record_pair MessagePriority.express MessagePriority.normal

-- `Counter(item.priority ...)`: the priorities in the order of their first item. A count of 0, which
-- the counter does not hold, records nothing.
unfoldable pub record_priorities : List Message → World → World
unfolding record_from
record_priorities [] w = w
record_priorities (m ∷ ms) w = record_from m.priority (m ∷ ms) w

-- The messages of the answer; `created_count` is their number.
unfoldable pub finish_batch :
    ℕ → ℤ → List Message → World → Result (Unit {0} × Database) → Result (List Message) × World
unfolding refuse_batch record_priorities
finish_batch user_id cost ms w (ok (_, db')) = (ok ms, record_priorities ms (record w { db = db' }))
finish_batch user_id cost ms w (err e) = refuse_batch user_id cost e w

unfoldable pub submit_batch :
    Prices → Draws → ℕ → BatchMessageRequest → World → Result (List Message) × World
submit_batch p d now r w =
    let cost = calculate_batch_message_cost p r.messages in
    let ms = new_messages p d now r.user_id 0 r.messages in
    finish_batch r.user_id cost ms w (submit d now r.user_id cost ms w.db)

unfoldable pub batch_create_message :
    Prices → Draws → ℕ → BatchMessageRequest → World → Result (List Message) × World
unfolding submit_batch
batch_create_message p d now r w = elim (check_duplicate_idempotency_keys r) [
  | some key ↦
      fail_with RejectionReason.idempotency_conflict batch (Error.idempotency_duplicate key) w
  | none ↦ submit_batch p d now r w
]
