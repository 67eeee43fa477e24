-- ===== src/Scripts/Benchmark/Fetch.antt =====
-- What scripts/benchmark.py fetches page by page, against the listing of the messages.
use abrio.Prelude.{
  ℕ, zero, suc, ◌+◌, ◌-◌, ◌*◌, ◌≤◌, ◌<◌, ◌≡◌, refl, sym, ap, subst, keep, ◌||◌, ◌∙◌, inl, inr, true,
  false, some, List, [], ◌∷◌, ◌++◌, take, length, leb, ltb, if◌then◌else◌, Bool-cases, arith, Bool,
}
use mathlib.Core.List.{append-nil}
use mathlib.Core.Path.{fun_ext}
use native.Mathlib.Nat.{mul-le-mul_right}
use abrio.Repositories.Order.{length-sort_by}
use abrio.Prelude.Division.{ceil_div, ceil_div-le}
use abrio.Database.Rows.{Message}
use abrio.Pagination.Ties.{Apart, page-tie}
use abrio.Pagination.Rows.{
  Filters, make, offset, window, messages_page, selected, get_messages_slice, matches, newest_first,
  PaginatedResponse,
}
use abrio.Pagination.Pages.{at, take_add, take_all}
use abrio.Scripts.Benchmark.{fetch, is_empty}

page_start : (n size : ℕ) → (suc n - 1) * size ≡ n * size
page_start n size = let e : suc n - 1 ≡ n = omega arith in rw e refl

module _ {A : Type 0} where
  -- An empty page is one after the last row.
  window_nil :
      (size o : ℕ) (xs : List A) → 0 < size → is_empty (window size o xs) ≡ true → take o xs ≡ xs
  window_nil zero o xs h e = absurd (omega arith)
  window_nil (suc size) zero [] h e = refl
  window_nil (suc size) zero (x ∷ xs) h e = cc
  window_nil (suc size) (suc o) [] h e = refl
  window_nil (suc size) (suc o) (x ∷ xs) h e =
      ap (λ ys. x ∷ ys) (window_nil (suc size) o xs (omega arith) e)

  empty_nil : (xs : List A) → is_empty xs ≡ true → xs ≡ []
  empty_nil [] h = refl
  empty_nil (x ∷ xs) h = cc

  -- The answers of a server that pages the list.
  abbrev pub paged : ℕ → ℕ → List A → ℕ → List A × ℕ
  paged size pages xs k = (window size ((k - 1) * size) xs, pages)

  fetch_stops :
      (get : ℕ → List A × ℕ) (fuel page : ℕ) (messages : List A)
      → (is_empty (get page).0 || leb (get page).1 page) ≡ true
      → fetch get (suc fuel) page messages ≡ some (messages ++ (get page).0)
  unfolding fetch
  fetch_stops get fuel page messages h = rw h refl

  fetch_continues :
      (get : ℕ → List A × ℕ) (fuel page : ℕ) (messages : List A)
      → (is_empty (get page).0 || leb (get page).1 page) ≡ false
      → fetch get (suc fuel) page messages ≡ fetch get fuel (page + 1) (messages ++ (get page).0)
  unfolding fetch
  fetch_continues get fuel page messages h = rw h refl

  module _ (size pages : ℕ) (xs : List A) (h : 0 < size) (l : length xs ≤ pages * size) where
    gathered :
        (n : ℕ) (messages : List A)
        → messages ≡ take (n * size) xs
        → messages ++ (paged size pages xs (suc n)).0 ≡ take (suc n * size) xs
    gathered n messages e =
        let s : suc n * size ≡ n * size + size = omega arith in
        rw (e, page_start n size, s) (sym (take_add (n * size) size xs))

    -- The page at which the loop stops completes the list.
    complete :
        (n : ℕ) (messages : List A)
        → messages ≡ take (n * size) xs
        → (is_empty (paged size pages xs (suc n)).0 || leb pages (suc n)) ≡ true
        → messages ++ (paged size pages xs (suc n)).0 ≡ xs
    complete n messages e stop = elim (Bool-cases (is_empty (paged size pages xs (suc n)).0)) [
      | inl none_left ↦
          let start : is_empty (window size (n * size) xs) ≡ true =
            subst (λ o. is_empty (window size o xs) ≡ true) (page_start n size) none_left in
          rw (empty_nil (paged size pages xs (suc n)).0 none_left)
            (append-nil messages ∙ (e ∙ window_nil size (n * size) xs h start))
      | inr some_left ↦
          let last : pages ≤ suc n = ground (arith, stop, some_left) in
          gathered n messages e
          ∙ take_all (suc n * size) xs (omega (arith, l, mul-le-mul_right size last))
    ]

    -- The loop from a page on gathers the list, if it has read the pages before.
    fetch-all :
        (fuel n : ℕ) (messages : List A)
        → 0 < fuel
        → pages < suc n + fuel
        → messages ≡ take (n * size) xs
        → fetch (paged size pages xs) fuel (suc n) messages ≡ some xs
    fetch-all zero n messages f b e = absurd (omega arith)
    fetch-all (suc fuel) n messages f b e =
        elim (Bool-cases (is_empty (paged size pages xs (suc n)).0 || leb pages (suc n))) [
          | inl stop ↦
              fetch_stops (paged size pages xs) fuel (suc n) messages stop
              ∙ ap (λ ys. some ys) (complete n messages e stop)
          | inr go ↦
              let next : suc n + 1 ≡ suc (suc n) = omega arith in
              let more : suc n < pages = ground (arith, go) in
              fetch_continues (paged size pages xs) fuel (suc n) messages go
              ∙ (rw next (
                  fetch-all fuel (suc n) (messages ++ (paged size pages xs (suc n)).0) (omega arith)
                    (omega arith) (gathered n messages e)))
        ]

-- The number of pages that a response names is enough.
pages_enough :
    {A : Type 0} (size : ℕ) (xs : List A)
    → 1 ≤ size
    → length xs ≤ (if ltb 0 (length xs) then ceil_div (length xs) size else 0) * size
pages_enough size [] h = omega arith
pages_enough size (x ∷ xs) h =
    let e : ltb 0 (length (x ∷ xs)) ≡ true = ground arith in
    rw e (ceil_div-le (length (x ∷ xs)) size (omega (arith, h)))

-- One order of ties in every query.
fetch-selected :
    (updated_at : Message → ℕ) (tie : Message → Message → Bool) (size : ℕ) (f : Filters)
    (ms : List Message)
    → 1 ≤ size
    → let pages = (messages_page updated_at tie (at size 1) f ms).pages in
      fetch
        (λ k. (
          (messages_page updated_at tie (at size k) f ms).items,
          (messages_page updated_at tie (at size k) f ms).pages,
        ))
        (suc pages)
        1
        []
      ≡ some (selected updated_at tie f ms)
unfolding messages_page make offset get_messages_slice selected
fetch-selected updated_at tie size f ms h =
    let total : length (keep (matches updated_at f) ms) ≡ length (selected updated_at tie f ms) =
      sym (length-sort_by (newest_first tie) (keep (matches updated_at f) ms)) in
    let rows = selected updated_at tie f ms in
    rw total (
      fetch-all size (if ltb 0 (length rows) then ceil_div (length rows) size else 0) rows
        (omega (arith, h)) (pages_enough size rows h)
        (suc (if ltb 0 (length rows) then ceil_div (length rows) size else 0)) 0 [] (omega arith)
        (omega arith) (let z : 0 * size ≡ 0 = omega arith in rw z refl))

-- For a positive size, and a table that no transaction changes while it is read, in which no two
-- messages were created at one time, the loop of the benchmark over the pages of the listing,
-- given one round more than the first page says there are pages, ends and has the whole filtered
-- and ordered listing, in whatever order each query finds its rows.
pub fetch-messages_page :
    (updated_at : Message → ℕ) (ties : ℕ → Message → Message → Bool)
    (tie : Message → Message → Bool) (size : ℕ) (f : Filters) (ms : List Message)
    → Apart ms
    → 1 ≤ size
    → let pages = (messages_page updated_at (ties 1) (at size 1) f ms).pages in
      fetch
        (λ k. (
          (messages_page updated_at (ties k) (at size k) f ms).items,
          (messages_page updated_at (ties k) (at size k) f ms).pages,
        ))
        (suc pages)
        1
        []
      ≡ some (selected updated_at tie f ms)
fetch-messages_page updated_at ties tie size f ms a h =
    let same : (k : ℕ)
        → messages_page updated_at (ties k) (at size k) f ms
          ≡ messages_page updated_at tie (at size k) f ms =
      λ k. page-tie updated_at (ties k) tie (at size k) f ms a in
    ap
      (λ (page : ℕ → PaginatedResponse Message).
        fetch (λ k. ((page k).items, (page k).pages)) (suc (page 1).pages) 1 [])
      (fun_ext same)
    ∙ fetch-selected updated_at tie size f ms h
