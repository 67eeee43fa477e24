-- ===== src/Pagination/Ties.antt =====
-- The order of messages that were created at one time (src/infra/db/repositories/messages.py,
-- `get_messages_slice`), which the query leaves open.
use abrio.Prelude.{
  ℕ, ◌≡◌, refl, ap, ◌∙◌, inl, inr, Bool, false, List, [], ◌∷◌, All, keep, length, ◌==◌, Bool-cases,
}
use abrio.Database.Rows.{Message}
use abrio.Repositories.Claim.{sort_by, insert_by}
use abrio.Outbox.Claiming.{All-keep, All-sort_by}
use abrio.Pagination.Rows.{
  PaginationParams, Filters, make, offset, window, messages_page, selected, get_messages_slice,
  matches, newest_first,
}

-- No two messages were created at one time.
abbrev pub Apart : List Message → Type 0
Apart [] = Unit
Apart (m ∷ ms) = All (λ x. (m.created_at == x.created_at) ≡ false) ms × Apart ms

keep-Apart : (p : Message → Bool) (ms : List Message) → Apart ms → Apart (keep p ms)
keep-Apart p [] a = tt
keep-Apart p (m ∷ ms) a = elim (Bool-cases (p m)) [
  | inl e ↦
      rw e (All-keep (λ x. (m.created_at == x.created_at) ≡ false) p ms a.0, keep-Apart p ms a.1)
  | inr e ↦ rw e (keep-Apart p ms a.1)
]

module _ (tie tie' : Message → Message → Bool) where
  insert_by-tie :
      (m : Message) (ms : List Message)
      → All (λ x. (m.created_at == x.created_at) ≡ false) ms
      → insert_by (newest_first tie) m ms ≡ insert_by (newest_first tie') m ms
  unfolding insert_by
  insert_by-tie m [] a = refl
  insert_by-tie m (x ∷ ms) a = rw (a.0, insert_by-tie m ms a.1) refl

  -- The order of ties does not matter where there are none.
  sort_by-tie :
      (ms : List Message)
      → Apart ms
      → sort_by (newest_first tie) ms ≡ sort_by (newest_first tie') ms
  unfolding sort_by
  sort_by-tie [] a = refl
  sort_by-tie (m ∷ ms) a =
      ap (insert_by (newest_first tie) m) (sort_by-tie ms a.1)
      ∙ insert_by-tie m (sort_by (newest_first tie') ms)
          (All-sort_by (λ x. (m.created_at == x.created_at) ≡ false) (newest_first tie') ms a.0)

-- So every query answers the same page.
pub page-tie :
    (updated_at : Message → ℕ) (tie tie' : Message → Message → Bool) (params : PaginationParams)
    (f : Filters) (ms : List Message)
    → Apart ms
    → messages_page updated_at tie params f ms ≡ messages_page updated_at tie' params f ms
unfolding messages_page get_messages_slice selected
page-tie updated_at tie tie' params f ms a =
    ap
      (λ rows.
        make (window params.size (offset params) rows) (length (keep (matches updated_at f) ms))
          params)
      (sort_by-tie tie tie' (keep (matches updated_at f) ms)
        (keep-Apart (matches updated_at f) ms a))
