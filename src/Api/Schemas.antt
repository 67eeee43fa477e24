-- ===== src/Api/Schemas.antt =====
-- What the request models of src/api/schemas/messages.py, balance.py and users.py accept. `digit` is
-- the class that the engine of the pattern gives `\d`.
use abrio.Prelude.{
  ℕ, Bool, true, false, ◌&&◌, ◌||◌, List, [], ◌∷◌, Text, codes, length, drop, leb, ◌==◌,
}
use abrio.Prelude.Int.{ℤ, pos, ltb_ℤ}
use abrio.Prelude.Texts.{is_prefix}
use abrio.UseCases.Submission.{Item, BatchMessageRequest, MessageRequest}

-- `Field(min_length=a, max_length=b)`
abbrev pub within : ℕ → ℕ → ℕ → Bool
within a b n = leb a n && leb n b

module _ (digit : ℕ → Bool) where
  abbrev pub all_digits : Text → Bool
  all_digits [] = true
  all_digits (c ∷ t) = digit c && all_digits t

  -- `9\d{9}`
  abbrev pub number : Text → Bool
  number [] = false
  number (c ∷ t) = c == 57 && length t == 9 && all_digits t

  abbrev pub number_after : Text → Text → Bool
  number_after prefix t = is_prefix prefix t && number (drop (length prefix) t)

  -- `^(\+98|0)?9\d{9}$`
  unfoldable pub valid_recipient : Text → Bool
  valid_recipient t = number_after (codes "+98") t || number_after (codes "0") t || number t

  unfoldable pub valid_item : Item → Bool
  unfolding valid_recipient
  valid_item i = valid_recipient i.recipient && within 1 70 (length i.body)

  abbrev pub all_valid : List Item → Bool
  all_valid [] = true
  all_valid (i ∷ items) = valid_item i && all_valid items

  unfoldable pub valid_request : MessageRequest → Bool
  unfolding valid_item
  valid_request r = valid_item r.item

  unfoldable pub valid_batch : ℕ → BatchMessageRequest → Bool
  unfolding valid_item
  valid_batch max_messages_per_batch r =
      within 1 max_messages_per_batch (length r.messages) && all_valid r.messages

-- `credit_amount: Decimal = Field(gt=0)`
unfoldable pub valid_topup : ℤ → Bool
valid_topup credit_amount = ltb_ℤ (pos 0) credit_amount

-- `name: str = Field(min_length=1, max_length=255)`
unfoldable pub valid_name : Text → Bool
valid_name name = within 1 255 (length name)
