-- ===== src/Pagination/Rows.antt =====
-- The pages of src/api/schemas/pagination.py, of the users and of the messages.
use abrio.Prelude.{
  ℕ, zero, suc, ◌-◌, ◌*◌, Bool, true, ◌&&◌, Option, none, some, List, leb, ltb, ◌==◌, if◌then◌else◌,
  keep, take, drop, length,
}
use abrio.Prelude.Division.{ceil_div}
use abrio.Domain.Enums.{
  MessagePriority, MessageStatus, PaymentStatus, message_status_eq, payment_eq, priority_eq,
}
use abrio.Database.Rows.{User, Message}
use abrio.Repositories.Claim.{sort_by, insert_by}

pub record PaginationParams : Type 0 where
  pub page : ℕ
  pub size : ℕ

-- The bounds of the two `Query` parameters.
unfoldable pub valid_params : PaginationParams → Bool
valid_params params = leb 1 params.page && leb 1 params.size && leb params.size 100

unfoldable pub offset : PaginationParams → ℕ
offset params = (params.page - 1) * params.size

pub record PaginatedResponse (A : Type 0) : Type 0 where
  pub items : List A
  pub total : ℕ
  pub page : ℕ
  pub size : ℕ
  pub pages : ℕ

module _ {A : Type 0} where
  unfoldable pub make : List A → ℕ → PaginationParams → PaginatedResponse A
  make items total params = record {
    items = items;
    total = total;
    page = params.page;
    size = params.size;
    pages = if ltb 0 total then ceil_div total params.size else 0;
  }

  -- `LIMIT limit OFFSET offset` on the rows in the order in which the database has them.
  abbrev pub window : ℕ → ℕ → List A → List A
  window limit offset rows = take limit (drop offset rows)

-- `UserRepository.get_users_slice` on the rows of its query, which has no ORDER BY.
unfoldable pub get_users_slice : ℕ → ℕ → List User → List User × ℕ
get_users_slice limit offset rows = (window limit offset rows, length rows)

-- `UserUseCase.get_users_slice`
unfoldable pub users_page : PaginationParams → List User → PaginatedResponse User
unfolding make offset get_users_slice
users_page params rows =
    let (users, total) = get_users_slice params.size (offset params) rows in make users total params

-- The filters of `get_messages_slice`.
pub record Filters : Type 0 where
  pub user_id : Option ℕ
  pub status : Option MessageStatus
  pub priority : Option MessagePriority
  pub payment_status : Option PaymentStatus
  pub created_after : Option ℕ
  pub created_before : Option ℕ
  pub updated_after : Option ℕ
  pub updated_before : Option ℕ

-- `if value: ... where(...)`
abbrev pub where_given : {B : Type 0} → (B → Bool) → Option B → Bool
where_given p none = true
where_given p (some v) = p v

-- `if user_id:` is false on 0.
abbrev pub where_user : ℕ → Option ℕ → Bool
where_user u none = true
where_user u (some zero) = true
where_user u (some (suc v)) = u == suc v

-- `created_at DESC`. Rows of one time come in whatever order the query finds them in: `tie` says
-- which of two comes first, and may differ from one query to the next.
abbrev pub newest_first : (Message → Message → Bool) → Message → Message → Bool
newest_first tie a b =
    if a.created_at == b.created_at then tie a b else leb b.created_at a.created_at

-- The column `updated_at`, which the row of the model leaves out, is an argument.
module _ (updated_at : Message → ℕ) where
  unfoldable pub matches : Filters → Message → Bool
  matches f m =
      where_user m.user_id f.user_id
      && where_given (message_status_eq m.status) f.status
      && where_given (priority_eq m.priority) f.priority
      && where_given (payment_eq m.payment_status) f.payment_status
      && where_given (λ t. leb t m.created_at) f.created_after
      && where_given (λ t. leb m.created_at t) f.created_before
      && where_given (λ t. leb t (updated_at m)) f.updated_after
      && where_given (λ t. leb (updated_at m) t) f.updated_before

  -- The rows of the data query, and of the count.
  unfoldable pub selected : (Message → Message → Bool) → Filters → List Message → List Message
  unfolding matches sort_by insert_by
  selected tie f ms = sort_by (newest_first tie) (keep (matches f) ms)

  unfoldable pub get_messages_slice :
      (Message → Message → Bool) → ℕ → ℕ → Filters → List Message → List Message × ℕ
  unfolding selected matches
  get_messages_slice tie limit offset f ms =
      (window limit offset (selected tie f ms), length (keep (matches f) ms))

  -- `MessageUseCase.get_messages_slice`
  unfoldable pub messages_page :
      (Message → Message → Bool)
      → PaginationParams
      → Filters
      → List Message
      → PaginatedResponse Message
  unfolding make offset get_messages_slice
  messages_page tie params f ms =
      let (messages, total) = get_messages_slice tie params.size (offset params) f ms in
      make messages total params
