-- ===== src/Api/Columns.antt =====
-- The texts that src/api/schemas/messages.py accepts, and the columns of
-- src/infra/db/models/message.py that they go to.
use abrio.Prelude.{
  ℕ, ◌+◌, ◌≤◌, ◌≡◌, refl, Bool, true, inl, inr, [], ◌∷◌, ◌++◌, Text, codes, length, drop, arith,
  Bool-cases, ap, ◌∙◌, ◌⊎◌, length-append,
}
use abrio.Prelude.Texts.{is_prefix, is_prefix-append, drop-append}
use abrio.UseCases.Submission.{Item}
use abrio.Api.Schemas.{all_digits, number, number_after, valid_recipient, valid_item}

-- The national numbers: a 9 and nine digits.
abbrev pub IsNumber : (ℕ → Bool) → Text → Type 0
IsNumber digit t = (ds : Text) × (t ≡ 57 ∷ ds) × (length ds ≡ 9) × (all_digits digit ds ≡ true)

number_inv : (digit : ℕ → Bool) (t : Text) → number digit t ≡ true → IsNumber digit t
number_inv digit [] h = cc
number_inv digit (c ∷ t) h =
    let e : c ≡ 57 = ground arith in (t, ap (λ x. x ∷ t) e, ground arith, ground arith)

is_prefix-drop : (s t : Text) → is_prefix s t ≡ true → t ≡ s ++ drop (length s) t
is_prefix-drop [] t h = refl
is_prefix-drop (a ∷ s) [] h = cc
is_prefix-drop (a ∷ s) (b ∷ t) h =
    let e : b ≡ a = ground arith in let rest = is_prefix-drop s t (ground arith) in cc

abbrev pub Prefixed : (ℕ → Bool) → Text → Text → Type 0
Prefixed digit s t = (n : Text) × IsNumber digit n × (t ≡ s ++ n)

number_after_inv :
    (digit : ℕ → Bool) (s t : Text) → number_after digit s t ≡ true → Prefixed digit s t
number_after_inv digit s t h = (
  drop (length s) t,
  number_inv digit (drop (length s) t) (ground arith),
  is_prefix-drop s t (ground arith),
)

-- A recipient in one of the three forms.
abbrev pub IsRecipient : (ℕ → Bool) → Text → Type 0
IsRecipient digit t =
    Prefixed digit (codes "+98") t ⊎ (Prefixed digit (codes "0") t ⊎ Prefixed digit [] t)

-- A recipient that the schema accepts has one of the three forms of its comment.
valid_recipient→IsRecipient :
    (digit : ℕ → Bool) (t : Text) → valid_recipient digit t ≡ true → IsRecipient digit t
unfolding valid_recipient
valid_recipient→IsRecipient digit t h = elim (Bool-cases (number_after digit (codes "+98") t)) [
  | inl e ↦ inl (number_after_inv digit (codes "+98") t e)
  | inr n ↦ elim (Bool-cases (number_after digit (codes "0") t)) [
    | inl e ↦ inr (inl (number_after_inv digit (codes "0") t e))
    | inr k ↦ inr (inr (t, number_inv digit t (ground arith), refl))
  ]
]

number_after-append :
    (digit : ℕ → Bool) (s n : Text) → IsNumber digit n → number_after digit s (s ++ n) ≡ true
number_after-append digit s n (ds, e, l, a) =
    rw (is_prefix-append s n, drop-append s n, e, l, a) refl

-- And the schema accepts each of these forms.
IsRecipient→valid_recipient :
    (digit : ℕ → Bool) (t : Text) → IsRecipient digit t → valid_recipient digit t ≡ true
unfolding valid_recipient
IsRecipient→valid_recipient digit t (inl (n, hn, e)) =
    let h = number_after-append digit (codes "+98") n hn in ground (arith, e, h)
IsRecipient→valid_recipient digit t (inr (inl (n, hn, e))) =
    let h = number_after-append digit (codes "0") n hn in ground (arith, e, h)
IsRecipient→valid_recipient digit t (inr (inr (n, hn, e))) =
    let h = number_after-append digit [] n hn in ground (arith, e, h)

Prefixed-length : (digit : ℕ → Bool) (s t : Text) → Prefixed digit s t → length t ≡ length s + 10
Prefixed-length digit s t (n, (ds, e, l, a), p) =
    ap length p ∙ (length-append s n ∙ omega (arith, ap length e, l))

-- A recipient has 10, 11 or 13 characters.
recipient_length : (digit : ℕ → Bool) (t : Text) → valid_recipient digit t ≡ true → length t ≤ 13
recipient_length digit t h = elim (valid_recipient→IsRecipient digit t h) [
  | inl p ↦ omega (arith, Prefixed-length digit (codes "+98") t p)
  | inr (inl p) ↦ omega (arith, Prefixed-length digit (codes "0") t p)
  | inr (inr p) ↦ omega (arith, Prefixed-length digit [] t p)
]

-- `String(13)` and `String(70)`, and no empty text.
pub record FitsColumns (recipient body : Text) : Type 0 where
  pub recipient_fits : length recipient ≤ 13
  pub body_fits : length body ≤ 70
  pub body_filled : 1 ≤ length body

pub valid_item-FitsColumns :
    (digit : ℕ → Bool) (i : Item) → valid_item digit i ≡ true → FitsColumns i.recipient i.body
unfolding valid_item
valid_item-FitsColumns digit i h = record {
  recipient_fits = recipient_length digit i.recipient (ground arith);
  body_fits = ground arith;
  body_filled = ground arith;
}
