-- ===== src/Ledger/Keys.antt =====
-- `_check_duplicate_idempotency_keys` of src/app/usecases/messages.py against the definition of
-- distinct keys.
use abrio.Prelude.{ℕ, ◌≡◌, refl, inl, inr, false, none, List, [], ◌∷◌, All, elem, Bool-cases, arith}
use abrio.UseCases.Submission.{
  Item, BatchMessageRequest, find_duplicate, check_duplicate_idempotency_keys,
}

abbrev pub keys : List Item → List ℕ
keys [] = []
keys (i ∷ items) = i.idempotency_key ∷ keys items

abbrev pub Distinct : List ℕ → Type 0
Distinct [] = Unit
Distinct (k ∷ ks) = (elem k ks ≡ false) × Distinct ks

abbrev Avoids : List ℕ → List ℕ → Type 0
Avoids seen = All (λ k. elem k seen ≡ false)

Avoids-tail : (k : ℕ) (seen ks : List ℕ) → Avoids (k ∷ seen) ks → Avoids seen ks
Avoids-tail k seen [] a = tt
Avoids-tail k seen (x ∷ ks) a = (ground (arith, a.0), Avoids-tail k seen ks a.1)

Avoids-elem : (k : ℕ) (seen ks : List ℕ) → Avoids (k ∷ seen) ks → elem k ks ≡ false
Avoids-elem k seen [] a = refl
Avoids-elem k seen (x ∷ ks) a = ground (arith, a.0, Avoids-elem k seen ks a.1)

Avoids-cons : (k : ℕ) (seen ks : List ℕ) → elem k ks ≡ false → Avoids seen ks → Avoids (k ∷ seen) ks
Avoids-cons k seen [] n a = tt
Avoids-cons k seen (x ∷ ks) n a =
    (ground (arith, a.0, n), Avoids-cons k seen ks (ground (arith, n)) a.1)

none-Distinct :
    (seen : List ℕ) (items : List Item)
    → find_duplicate seen items ≡ none
    → Avoids seen (keys items) × Distinct (keys items)
unfolding find_duplicate
none-Distinct seen [] h = (tt, tt)
none-Distinct seen (i ∷ items) h =
    let k = i.idempotency_key in
    elim (Bool-cases (elem k seen)) [
      | inl e ↦ absurd (ground arith)
      | inr e ↦
          let (a, d) = none-Distinct (k ∷ seen) items (ground arith) in
          ((e, Avoids-tail k seen (keys items) a), (Avoids-elem k seen (keys items) a, d))
    ]

Distinct-none :
    (seen : List ℕ) (items : List Item)
    → Avoids seen (keys items)
    → Distinct (keys items)
    → find_duplicate seen items ≡ none
unfolding find_duplicate
Distinct-none seen [] a d = refl
Distinct-none seen (i ∷ items) a d =
    let k = i.idempotency_key in
    let rest = Distinct-none (k ∷ seen) items (Avoids-cons k seen (keys items) d.0 a.1) d.1 in
    ground (arith, a.0, rest)

Avoids-nil : (ks : List ℕ) → Avoids [] ks
Avoids-nil [] = tt
Avoids-nil (k ∷ ks) = (refl, Avoids-nil ks)

-- The check of a batch finds no duplicate key exactly if the idempotency keys of its items are
-- pairwise different.
check_duplicate_idempotency_keys_lem :
    (r : BatchMessageRequest)
    → (check_duplicate_idempotency_keys r ≡ none → Distinct (keys r.messages))
      × (Distinct (keys r.messages) → check_duplicate_idempotency_keys r ≡ none)
unfolding check_duplicate_idempotency_keys
check_duplicate_idempotency_keys_lem r = (
  λ h. (none-Distinct [] r.messages h).1,
  λ d. Distinct-none [] r.messages (Avoids-nil (keys r.messages)) d,
)
