-- ===== src/Database/Table.antt =====
-- A table is the list of its rows in the order of insertion. The section's `key` is the column by
-- which the source looks a row up; it is unique, so the first row with the key is the only one.
use abrio.Prelude.{
  ℕ, ◌≡◌, refl, ◌≢◌, inl, inr, subst, Option, none, some, List, [], ◌∷◌, ◌++◌, arith, ◌==◌,
  if◌then◌else◌, All, Bool-cases, is_some, true, ==→eq, ◌∙◌,
}
use abrio.Prelude.Int.{ℤ, pos, ◌+ℤ◌, ◌≤ℤ◌, int_laws}

module _ {A : Type 0} (key : A → ℕ) where
  -- `SELECT ... WHERE key = k`
  abbrev pub find : ℕ → List A → Option A
  find k [] = none
  find k (r ∷ rs) = if key r == k then some r else find k rs

  -- `UPDATE ... WHERE key = key r`: the flush of a changed object.
  abbrev pub save : A → List A → List A
  save r [] = []
  save r (x ∷ rs) = if key x == key r then r ∷ rs else x ∷ save r rs

  pub find_key : (k : ℕ) (rs : List A) (r : A) → find k rs ≡ some r → key r ≡ k
  find_key k [] r h = cc
  find_key k (x ∷ rs) r h = ground (arith, find_key k rs r)

  pub find-save_self :
      (r old : A) (rs : List A) → find (key r) rs ≡ some old → find (key r) (save r rs) ≡ some r
  find-save_self r old [] h = cc
  find-save_self r old (x ∷ rs) h = ground (arith, find-save_self r old rs)

  pub find-save_ne : (k : ℕ) (r : A) (rs : List A) → k ≢ key r → find k (save r rs) ≡ find k rs
  find-save_ne k r [] h = refl
  find-save_ne k r (x ∷ rs) h = ground (arith, find-save_ne k r rs)

  pub is_some-find-save :
      (k : ℕ) (r : A) (rs : List A)
      → is_some (find k rs) ≡ true
      → is_some (find k (save r rs)) ≡ true
  is_some-find-save k r [] h = h
  is_some-find-save k r (x ∷ rs) h = ground (arith, is_some-find-save k r rs)

  pub find-append :
      (k : ℕ) (xs ys : List A) (r : A) → find k xs ≡ some r → find k (xs ++ ys) ≡ some r
  find-append k [] ys r h = cc
  find-append k (x ∷ xs) ys r h = ground (arith, find-append k xs ys r)

  pub find-append_none : (k : ℕ) (xs ys : List A) → find k xs ≡ none → find k (xs ++ ys) ≡ find k ys
  find-append_none k [] ys h = refl
  find-append_none k (x ∷ xs) ys h = ground (arith, find-append_none k xs ys)

  -- A sum over the rows moves by the difference that the saved row makes.
  abbrev pub total : (A → ℤ) → List A → ℤ
  total w [] = pos 0
  total w (x ∷ rs) = w x +ℤ total w rs

  pub total-save :
      (w : A → ℤ) (r old : A) (rs : List A)
      → find (key r) rs ≡ some old
      → total w (save r rs) +ℤ w old ≡ total w rs +ℤ w r
  total-save w r old [] h = cc
  total-save w r old (x ∷ rs) h = grind (int_laws, total-save w r old rs)

  pub total-append : (w : A → ℤ) (xs ys : List A) → total w (xs ++ ys) ≡ total w xs +ℤ total w ys
  total-append w [] ys = omega int_laws
  total-append w (x ∷ xs) ys = rw (total-append w xs ys) (omega int_laws)

  pub All-find :
      (P : A → Type 0) (k : ℕ) (rs : List A) (r : A) → All P rs → find k rs ≡ some r → P r
  All-find P k [] r a h = cc
  All-find P k (x ∷ rs) r a h = elim (Bool-cases (key x == k)) [
    | inl hit ↦ subst P (ground arith) a.0
    | inr miss ↦ All-find P k rs r a.1 (ground arith)
  ]

  pub All-save : (P : A → Type 0) (r : A) (rs : List A) → All P rs → P r → All P (save r rs)
  All-save P r [] a h = tt
  All-save P r (x ∷ rs) a h = elim (Bool-cases (key x == key r)) [
    | inl hit ↦ rw hit (h, a.1)
    | inr miss ↦ rw miss (a.0, All-save P r rs a.1 h)
  ]

  pub total_nonneg : (w : A → ℤ) (rs : List A) → All (λ x. pos 0 ≤ℤ w x) rs → pos 0 ≤ℤ total w rs
  total_nonneg w [] a = omega arith
  total_nonneg w (x ∷ rs) a = omega (int_laws, total_nonneg w rs a.1)

  -- A sum of non-negative terms is at least each of them.
  pub le-total_of_find :
      (w : A → ℤ) (k : ℕ) (rs : List A) (r : A)
      → All (λ x. pos 0 ≤ℤ w x) rs
      → find k rs ≡ some r
      → w r ≤ℤ total w rs
  le-total_of_find w k [] r a h = cc
  le-total_of_find w k (x ∷ rs) r a h = elim (Bool-cases (key x == k)) [
    | inl hit ↦
        let same : x ≡ r = ground arith in
        subst (λ y. w y ≤ℤ (w x +ℤ total w rs)) same (omega (int_laws, total_nonneg w rs a.1))
    | inr miss ↦ omega (int_laws, a.0, le-total_of_find w k rs r a.1 (ground arith))
  ]

  -- No key stands twice.
  abbrev pub Keyed : List A → Type 0
  Keyed [] = Unit
  Keyed (x ∷ rs) = (find (key x) rs ≡ none) × Keyed rs

  pub find-save-none : (k : ℕ) (r : A) (rs : List A) → find k rs ≡ none → find k (save r rs) ≡ none
  find-save-none k r [] h = refl
  find-save-none k r (x ∷ rs) h = ground (arith, find-save-none k r rs)

  pub Keyed-save : (r : A) (rs : List A) → Keyed rs → Keyed (save r rs)
  Keyed-save r [] h = tt
  Keyed-save r (x ∷ rs) h = elim (Bool-cases (key x == key r)) [
    | inl e ↦ rw e (subst (λ k. find k rs ≡ none) (==→eq (key x) (key r) e) h.0, h.1)
    | inr n ↦ rw n (find-save-none (key x) r rs h.0, Keyed-save r rs h.1)
  ]

  pub Keyed-insert :
      (r : A) (rs : List A) → find (key r) rs ≡ none → Keyed rs → Keyed (rs ++ r ∷ [])
  Keyed-insert r [] n h = (refl, tt)
  Keyed-insert r (x ∷ rs) n h = (
    find-append_none (key x) rs (r ∷ []) h.0 ∙ ground arith,
    Keyed-insert r rs (ground arith) h.1,
  )
