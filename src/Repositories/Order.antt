-- ===== src/Repositories/Order.antt =====
-- An ORDER BY and a WHERE against the rows that they order and pass.
use abrio.Prelude.{
  ◌≤◌, suc, ◌≡◌, refl, ap, ◌∙◌, Bool, true, false, List, [], ◌∷◌, All, arith, count, keep, length,
  if◌then◌else◌,
}
use abrio.Repositories.Claim.{sort_by, insert_by}

module _ {A : Type 0} where
  pub count-keep-le : (p q : A → Bool) (xs : List A) → count p (keep q xs) ≤ count p xs
  count-keep-le p q [] = omega arith
  count-keep-le p q (x ∷ xs) = ground (arith, count-keep-le p q xs)

  keep_split :
      (P : A → Type 0) (R : Type 0) (b c : Bool) (x : A) (xs : List A)
      → c ≡ b
      → All P (if b then x ∷ xs else xs)
      → (All P xs → R)
      → (c ≡ true → P x) × R
  keep_split P R true c x xs e a rest = (λ h. a.0, rest a.1)
  keep_split P R false c x xs e a rest = (λ h. absurd (ground (arith, e, h)), rest a)

  pub All-of_keep :
      (P : A → Type 0) (p : A → Bool) (xs : List A)
      → All P (keep p xs)
      → All (λ x. p x ≡ true → P x) xs
  All-of_keep P p [] a = tt
  All-of_keep P p (x ∷ xs) a =
      keep_split P (All (λ k. p k ≡ true → P k) xs) (p x) (p x) x (keep p xs) refl a
        (All-of_keep P p xs)

  insert_split :
      (P : A → Type 0) (b : Bool) (x y : A) (xs ys : List A)
      → All P (if b then x ∷ y ∷ xs else y ∷ ys)
      → (All P ys → P x × All P xs)
      → P x × (P y × All P xs)
  insert_split P true x y xs ys a rest = a
  insert_split P false x y xs ys a rest = let (h, b) = rest a.1 in (h, (a.0, b))

module _ {A : Type 0} (before : A → A → Bool) where
  length-insert_by : (a : A) (rows : List A) → length (insert_by before a rows) ≡ suc (length rows)
  unfolding insert_by
  length-insert_by a [] = refl
  length-insert_by a (b ∷ rows) = ground (arith, length-insert_by a rows)

  pub length-sort_by : (rows : List A) → length (sort_by before rows) ≡ length rows
  unfolding sort_by
  length-sort_by [] = refl
  length-sort_by (a ∷ rows) =
      length-insert_by a (sort_by before rows) ∙ ap suc (length-sort_by rows)

  count-insert_by :
      (p : A → Bool) (a : A) (rows : List A)
      → count p (insert_by before a rows) ≡ count p (a ∷ rows)
  unfolding insert_by
  count-insert_by p a [] = refl
  count-insert_by p a (b ∷ rows) = ground (arith, count-insert_by p a rows)

  pub count-sort_by : (p : A → Bool) (rows : List A) → count p (sort_by before rows) ≡ count p rows
  unfolding sort_by
  count-sort_by p [] = refl
  count-sort_by p (a ∷ rows) =
      count-insert_by p a (sort_by before rows) ∙ ground (arith, count-sort_by p rows)

  All-of_insert_by :
      (P : A → Type 0) (a : A) (rows : List A) → All P (insert_by before a rows) → P a × All P rows
  unfolding insert_by
  All-of_insert_by P a [] h = h
  All-of_insert_by P a (b ∷ rows) h =
      insert_split P (before a b) a b rows (insert_by before a rows) h (All-of_insert_by P a rows)

  pub All-of_sort_by : (P : A → Type 0) (rows : List A) → All P (sort_by before rows) → All P rows
  unfolding sort_by
  All-of_sort_by P [] h = tt
  All-of_sort_by P (a ∷ rows) h =
      let (first, rest) = All-of_insert_by P a (sort_by before rows) h in
      (first, All-of_sort_by P rows rest)
