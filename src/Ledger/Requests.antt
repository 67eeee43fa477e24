-- ===== src/Ledger/Requests.antt =====
-- `create_message` and `batch_create_message` of src/app/usecases/messages.py on a consistent
-- database.
use abrio.Prelude.{
  ℕ, zero, suc, ◌≡◌, refl, sym, subst, ◌∙◌, inl, inr, List, [], ◌∷◌, Option-cases, arith,
}
use abrio.Prelude.Int.{ℤ, pos, ◌+ℤ◌, int_laws}
use abrio.Domain.Enums.{MessagePriority, PaymentStatus}
use abrio.Domain.Errors.{
  Error, unique_violation, foreign_key_violation, check_violation, CheckConstraint,
}
use abrio.Database.Rows.{Message, Database}
use abrio.Database.Session.{Result, ok, err, Result-cases}
use abrio.Repositories.Messages
use abrio.Metrics.{
  World, record_submission_rejected, record_idempotent_replay, record_messages_submitted,
  SubmissionType,
}
use abrio.UseCases.Submission.{
  Prices, Draws, Item, MessageRequest, BatchMessageRequest, new_message, new_messages, submit,
  add_costs, get_message_cost, calculate_batch_message_cost, refuse_single, refuse_batch,
  create_message, batch_create_message, record_priorities, check_duplicate_idempotency_keys,
  finish_single, finish_batch, record_from,
}
use abrio.Ledger.Consistent.{Inv, Conserves, total_in}
use abrio.Ledger.Save.{cost_in_here}
use abrio.Ledger.Insert.{Reserved}
use abrio.Ledger.Submission.{OwnedBy, submit-Inv}

-- The new rows of a request are its user's, reserved, and cost what the request is charged.
pub new_messages-OwnedBy :
    (p : Prices) (d : Draws) (now u n : ℕ) (items : List Item)
    → OwnedBy u (new_messages p d now u n items)
unfolding new_messages
new_messages-OwnedBy p d now u n [] = tt
new_messages-OwnedBy p d now u n (i ∷ items) = (refl, new_messages-OwnedBy p d now u (suc n) items)

pub new_messages-Reserved :
    (p : Prices) (d : Draws) (now u n : ℕ) (items : List Item)
    → Reserved (new_messages p d now u n items)
unfolding new_messages
new_messages-Reserved p d now u n [] = tt
new_messages-Reserved p d now u n (i ∷ items) =
    (refl, new_messages-Reserved p d now u (suc n) items)

add_costs-total :
    (p : Prices) (d : Draws) (now u n : ℕ) (items : List Item) (acc : ℤ)
    → acc +ℤ total_in PaymentStatus.reserved u (new_messages p d now u n items)
      ≡ add_costs p acc items
unfolding new_messages add_costs
add_costs-total p d now u n [] acc = omega int_laws
add_costs-total p d now u n (i ∷ items) acc =
    rw
      (
        cost_in_here PaymentStatus.reserved u (new_message p now u (d.message_id n) i)
            (ground arith) refl,
        ← add_costs-total p d now u (suc n) items (acc +ℤ get_message_cost p i),
      )
      (omega int_laws)

pub batch-total :
    (p : Prices) (d : Draws) (now u : ℕ) (items : List Item)
    → total_in PaymentStatus.reserved u (new_messages p d now u 0 items)
      ≡ calculate_batch_message_cost p items
unfolding calculate_batch_message_cost
batch-total p d now u items = rw (← add_costs-total p d now u 0 items (pos 0)) (omega int_laws)

pub single_cost :
    (p : Prices) (i : Item) → calculate_batch_message_cost p (i ∷ []) ≡ get_message_cost p i
unfolding calculate_batch_message_cost add_costs
single_cost p i = omega int_laws

refuse_single-db :
    (r : MessageRequest) (cost : ℤ) (e : Error) (w : World) → (refuse_single r cost e w).1.db ≡ w.db
unfolding refuse_single record_submission_rejected record_idempotent_replay
refuse_single-db r cost (Error.integrity unique_violation) w =
    elim (Result-cases
      (Messages.get_user_message_by_idempotency_key r.user_id r.item.idempotency_key w.db)) [
        | inl (e, h) ↦ rw h
        | inr ((m, db), h) ↦ rw h
      ]
refuse_single-db r cost (Error.integrity foreign_key_violation) w = refl
refuse_single-db r cost
      (Error.integrity (check_violation CheckConstraint.check_credits_ge_reserved_credits)) w =
    refl
refuse_single-db r cost (Error.integrity (check_violation _)) w = refl
refuse_single-db r cost e w = refl

refuse_batch-db : (u : ℕ) (cost : ℤ) (e : Error) (w : World) → (refuse_batch u cost e w).1.db ≡ w.db
unfolding refuse_batch record_submission_rejected
refuse_batch-db u cost (Error.integrity unique_violation) w = refl
refuse_batch-db u cost (Error.integrity foreign_key_violation) w = refl
refuse_batch-db u cost
      (Error.integrity (check_violation CheckConstraint.check_credits_ge_reserved_credits)) w =
    refl
refuse_batch-db u cost (Error.integrity (check_violation _)) w = refl
refuse_batch-db u cost e w = refl

record_messages_submitted-db :
    (p : MessagePriority) (s : SubmissionType) (n : ℕ) (w : World)
    → (record_messages_submitted p s n w).db ≡ w.db
unfolding record_messages_submitted
record_messages_submitted-db p s zero w = refl
record_messages_submitted-db p s (suc n) w = refl

-- The metrics of an accepted batch are no part of the database.
pub record_priorities-db : (ms : List Message) (w : World) → (record_priorities ms w).db ≡ w.db
unfolding record_priorities
record_priorities-db [] w = refl
record_priorities-db (m ∷ ms) w = go m.priority
  where
    go : (q : MessagePriority) → (record_from q (m ∷ ms) w).db ≡ w.db
    go MessagePriority.normal = simp record_messages_submitted-db
    go MessagePriority.express = simp record_messages_submitted-db

-- What a submission leaves is the database as it was, or what its transaction committed.
module _ (P : Database → Type 0) (w : World) (old : P w.db) where
  pub finish_single-db :
      (r : MessageRequest) (cost : ℤ) (m : Message) (res : Result (Unit {0} × Database))
      → ((x : Unit {0}) (db' : Database) → res ≡ ok (x, db') → P db')
      → P (finish_single r cost m w res).1.db
  unfolding finish_single record_messages_submitted
  finish_single-db r cost m (ok (x, db')) h = h x db' refl
  finish_single-db r cost m (err e) h = subst P (sym (refuse_single-db r cost e w)) old

  pub finish_batch-db :
      (u : ℕ) (cost : ℤ) (ms : List Message) (res : Result (Unit {0} × Database))
      → ((x : Unit {0}) (db' : Database) → res ≡ ok (x, db') → P db')
      → P (finish_batch u cost ms w res).1.db
  unfolding finish_batch
  finish_batch-db u cost ms (ok (x, db')) h =
      subst P (sym (record_priorities-db ms (record w { db = db' }))) (h x db' refl)
  finish_batch-db u cost ms (err e) h = subst P (sym (refuse_batch-db u cost e w)) old

module _ (P : Database → Type 0) (p : Prices) (d : Draws) (now : ℕ) (w : World) (old : P w.db) where
  pub create_message-db :
      (r : MessageRequest)
      → ((x : Unit {0}) (db' : Database)
          → submit d now r.user_id
              (get_message_cost p r.item)
              (new_messages p d now r.user_id 0 (r.item ∷ []))
              w.db
            ≡ ok (x, db')
          → P db')
      → P (create_message p d now r w).1.db
  unfolding create_message new_messages
  create_message-db r h =
      let cost = get_message_cost p r.item in
      let m = new_message p now r.user_id (d.message_id 0) r.item in
      finish_single-db P w old r cost m (submit d now r.user_id cost (m ∷ []) w.db) h

  pub batch_create_message-db :
      (r : BatchMessageRequest)
      → ((x : Unit {0}) (db' : Database)
          → submit d now r.user_id
              (calculate_batch_message_cost p r.messages)
              (new_messages p d now r.user_id 0 r.messages)
              w.db
            ≡ ok (x, db')
          → P db')
      → P (batch_create_message p d now r w).1.db
  unfolding batch_create_message record_submission_rejected
  batch_create_message-db r h = elim (Option-cases (check_duplicate_idempotency_keys r)) [
    | inl e ↦
        rw (e, batch_create_message)
          (finish_batch-db P w old r.user_id (calculate_batch_message_cost p r.messages)
            (new_messages p d now r.user_id 0 r.messages)
            (submit d now r.user_id (calculate_batch_message_cost p r.messages)
              (new_messages p d now r.user_id 0 r.messages) w.db)
            h)
    | inr (key, e) ↦ rw (e, batch_create_message) old
  ]

-- A consistent database after a request, with nothing made or lost.
abbrev pub Safe : Database → Database → Type 0
Safe db db' = Inv db' × Conserves db db'

pub Safe-refl : (db db' : Database) → Inv db → db' ≡ db → Safe db db'
Safe-refl db db' inv e = subst (Safe db) (sym e) (inv, λ u b hb. (b, hb, refl))

module _ (p : Prices) (d : Draws) (now : ℕ) (w : World) (inv : Inv w.db) where
  submit-Safe :
      (u : ℕ) (items : List Item) (cost : ℤ) (x : Unit {0}) (db' : Database)
      → submit d now u cost (new_messages p d now u 0 items) w.db ≡ ok (x, db')
      → calculate_batch_message_cost p items ≡ cost
      → Safe w.db db'
  submit-Safe u items cost x db' h ec =
      let (b, hb, s, e, good, kept) =
        submit-Inv d now u cost (new_messages p d now u 0 items) w.db db' x h inv
          (new_messages-OwnedBy p d now u 0 items) (new_messages-Reserved p d now u 0 items)
          (batch-total p d now u items ∙ ec) in
      (good, kept)

  -- On a consistent database the submission of one message, whatever it answers, keeps the
  -- invariant and what each user holds and has spent.
  pub create_message-Safe : (r : MessageRequest) → Safe w.db (create_message p d now r w).1.db
  create_message-Safe r =
      create_message-db (Safe w.db) p d now w (Safe-refl w.db w.db inv refl) r (λ x db' h.
        submit-Safe r.user_id (r.item ∷ []) (get_message_cost p r.item) x db' h
          (single_cost p r.item))

  -- On a consistent database the submission of a batch, whatever it answers, keeps the invariant
  -- and what each user holds and has spent.
  pub batch_create_message-Safe :
      (r : BatchMessageRequest) → Safe w.db (batch_create_message p d now r w).1.db
  batch_create_message-Safe r =
      batch_create_message-db (Safe w.db) p d now w (Safe-refl w.db w.db inv refl) r (λ x db' h.
        submit-Safe r.user_id r.messages (calculate_batch_message_cost p r.messages) x db' h refl)
