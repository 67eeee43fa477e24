-- ===== src/Api/Fits.antt =====
-- The rows that the two submissions of src/api/routes/messages.py store, and the columns of
-- src/infra/db/models/message.py.
use abrio.Prelude.{
  ℕ, suc, ◌≡◌, refl, subst, sym, Bool, true, inl, inr, List, [], ◌∷◌, ◌++◌, All, Bool-cases, arith,
}
use abrio.Database.Rows.{Message, Database}
use abrio.Metrics.{World}
use abrio.UseCases.Submission.{
  Prices, Draws, Item, MessageRequest, BatchMessageRequest, new_messages, submit, get_message_cost,
  calculate_batch_message_cost,
}
use abrio.Prelude.Int.{ℤ}
use abrio.Database.Session.{ok}
use abrio.Ledger.Consistent.{Inv}
use abrio.Ledger.Batches.{submit-accepted}
use abrio.Ledger.Requests.{create_message-db, batch_create_message-db, single_cost}
use abrio.Api.Schemas.{valid_item, valid_request, valid_batch, all_valid}
use abrio.Api.Columns.{FitsColumns, valid_item-FitsColumns}
use abrio.Api.Routes.{send_message, batch_send_message}

-- Every text of the table fits its column.
abbrev pub Fits : List Message → Type 0
Fits = All (λ m. FitsColumns m.recipient m.body)

Fits-append : (xs ys : List Message) → Fits xs → Fits ys → Fits (xs ++ ys)
Fits-append [] ys a b = b
Fits-append (x ∷ xs) ys a b = (a.0, Fits-append xs ys a.1 b)

module _ (digit : ℕ → Bool) (p : Prices) (d : Draws) (now u : ℕ) where
  new_messages-Fits :
      (n : ℕ) (items : List Item)
      → all_valid digit items ≡ true
      → Fits (new_messages p d now u n items)
  unfolding new_messages
  new_messages-Fits n [] h = tt
  new_messages-Fits n (i ∷ items) h = (
    valid_item-FitsColumns digit i (ground arith),
    new_messages-Fits (suc n) items (ground arith),
  )

  submit-Fits :
      (items : List Item) (cost : ℤ) (db db' : Database) (x : Unit {0})
      → Inv db
      → Fits db.messages
      → all_valid digit items ≡ true
      → calculate_batch_message_cost p items ≡ cost
      → submit d now u cost (new_messages p d now u 0 items) db ≡ ok (x, db')
      → Fits db'.messages
  submit-Fits items cost db db' x inv old valid ec h =
      let run =
        subst (λ c. submit d now u c (new_messages p d now u 0 items) db ≡ ok (x, db')) (sym ec)
          h in
      let (b, hb, s, e) = submit-accepted p d now u items db db' x inv run in
      subst (λ D. Fits D.messages) (sym e)
        (Fits-append db.messages (new_messages p d now u 0 items) old
          (new_messages-Fits 0 items valid))

batch_valid :
    (digit : ℕ → Bool) (limit : ℕ) (payload : BatchMessageRequest)
    → valid_batch digit limit payload ≡ true
    → all_valid digit payload.messages ≡ true
unfolding valid_batch
batch_valid digit limit payload h = ground arith

module _ (digit : ℕ → Bool) (p : Prices) (d : Draws) (now : ℕ) (w : World) (inv : Inv w.db)
    (old : Fits w.db.messages) where
  send_message-Fits :
      (payload : MessageRequest) → Fits (send_message digit p d now payload w).1.db.messages
  unfolding send_message valid_request
  send_message-Fits payload = elim (Bool-cases (valid_item digit payload.item)) [
    | inl valid ↦ rw valid (
        create_message-db (λ D. Fits D.messages) p d now w old payload
          (λ x db' h.
            submit-Fits digit p d now payload.user_id (payload.item ∷ [])
              (get_message_cost p payload.item) w.db db' x inv old (ground (arith, valid))
              (single_cost p payload.item) h))
    | inr bad ↦ rw bad old
  ]

  batch_send_message-Fits :
      (limit : ℕ) (payload : BatchMessageRequest)
      → Fits (batch_send_message digit limit p d now payload w).1.db.messages
  unfolding batch_send_message
  batch_send_message-Fits limit payload = elim (Bool-cases (valid_batch digit limit payload)) [
    | inl valid ↦ rw valid (
        batch_create_message-db (λ D. Fits D.messages) p d now w old payload
          (λ x db' h.
            submit-Fits digit p d now payload.user_id payload.messages
              (calculate_batch_message_cost p payload.messages) w.db db' x inv old
              (batch_valid digit limit payload valid) refl h))
    | inr bad ↦ rw bad old
  ]

  -- On a consistent database whose messages have a recipient of at most 13 characters and a body
  -- of 1 to 70, both submission routes, whatever they answer, leave messages that do.
  pub submissions-Fits :
      (limit : ℕ) (payload : MessageRequest) (payloads : BatchMessageRequest)
      → Fits (send_message digit p d now payload w).1.db.messages
        × Fits (batch_send_message digit limit p d now payloads w).1.db.messages
  submissions-Fits limit payload payloads =
      (send_message-Fits payload, batch_send_message-Fits limit payloads)
