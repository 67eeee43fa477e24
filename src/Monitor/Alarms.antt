-- ===== src/Monitor/Alarms.antt =====
-- The payment alarms of src/core/metrics.py against the invariant of the ledger.
use abrio.Prelude.{
  count, ℕ, ◌≡◌, refl, sym, ap, subst, ◌∙◌, inl, inr, Bool, true, false, ◌&&◌, not, some, List, [],
  ◌∷◌, ◌==◌, All, All-and, All-imply, Bool-cases, arith,
}
use abrio.Prelude.Int.{ℤ, pos, ◌≤ℤ◌, ltb_ℤ, int_laws}
use abrio.Domain.Enums.{PaymentStatus, payment_eq}
use abrio.Database.Table.{find, Keyed, find_key}
use abrio.Database.Rows.{Balance, Message, Database, balance_key}
use abrio.Ledger.Consistent.{Inv, total_in}
use abrio.Ledger.System.{Run, Deposit, Run-Inv}
use abrio.Monitor.Collect.{Violations, collect_payment_consistency_metrics, reserved_total, eq_ℤ}

-- No alarm.
abbrev pub silent : Violations
silent = record {
  negative_credits = 0;
  negative_reserved_credits = 0;
  reserved_exceeds_credits = 0;
  reserved_without_message = 0;
  message_balance_mismatch = 0;
}

-- What the alarms are about: money held is covered, and is the cost of the reserved messages.
abbrev pub IsHealthy : List Message → Balance → Type 0
IsHealthy ms b =
    (pos 0 ≤ℤ b.reserved_credits)
    × (b.reserved_credits ≤ℤ b.credits)
    × (b.reserved_credits ≡ total_in PaymentStatus.reserved b.user_id ms)

reserved_total_lem :
    (u : ℕ) (ms : List Message) → reserved_total ms u ≡ total_in PaymentStatus.reserved u ms
unfolding reserved_total
reserved_total_lem u [] = refl
reserved_total_lem u (m ∷ ms) =
    elim (Bool-cases (m.user_id == u && payment_eq m.payment_status PaymentStatus.reserved)) [
      | inl e ↦ rw (e, reserved_total_lem u ms) refl
      | inr e ↦ rw e (reserved_total_lem u ms ∙ omega int_laws)
    ]

count-none : {A : Type 0} (p : A → Bool) (xs : List A) → All (λ x. p x ≡ false) xs → count p xs ≡ 0
count-none p [] a = refl
count-none p (x ∷ xs) a = ground (arith, a.0, count-none p xs a.1)

none-count : {A : Type 0} (p : A → Bool) (xs : List A) → count p xs ≡ 0 → All (λ x. p x ≡ false) xs
none-count p [] h = tt
none-count p (x ∷ xs) h = (ground arith, none-count p xs (ground arith))

eq_ℤ→eq : (a b : ℤ) → eq_ℤ a b ≡ true → a ≡ b
eq_ℤ→eq a b h = ground arith

eq_ℤ_refl : (a : ℤ) → eq_ℤ a a ≡ true
eq_ℤ_refl a = ground arith

-- One balance that no alarm counts is healthy, and none counts a healthy one.
module _ (ms : List Message) (b : Balance) where
  quiet-IsHealthy :
      ltb_ℤ b.reserved_credits (pos 0) ≡ false
      → ltb_ℤ b.credits b.reserved_credits ≡ false
      → not (eq_ℤ b.reserved_credits (reserved_total ms b.user_id)) ≡ false
      → IsHealthy ms b
  quiet-IsHealthy n c m = (
    ground (arith, n),
    ground (arith, c),
    eq_ℤ→eq b.reserved_credits (reserved_total ms b.user_id) (ground (arith, m))
        ∙ reserved_total_lem b.user_id ms,
  )

  module _ (h : IsHealthy ms b) where
    total_eq : reserved_total ms b.user_id ≡ b.reserved_credits
    total_eq = reserved_total_lem b.user_id ms ∙ sym h.2

    quiet_credits : ltb_ℤ b.credits (pos 0) ≡ false
    quiet_credits = ground (arith, h.0, h.1)

    quiet_reserved : ltb_ℤ b.reserved_credits (pos 0) ≡ false
    quiet_reserved = ground (arith, h.0)

    quiet_exceeds : ltb_ℤ b.credits b.reserved_credits ≡ false
    quiet_exceeds = ground (arith, h.1)

    quiet_without :
        (ltb_ℤ (pos 0) b.reserved_credits && eq_ℤ (reserved_total ms b.user_id) (pos 0)) ≡ false
    quiet_without = rw total_eq (ground arith)

    quiet_mismatch : not (eq_ℤ b.reserved_credits (reserved_total ms b.user_id)) ≡ false
    quiet_mismatch = rw (total_eq, eq_ℤ_refl b.reserved_credits) refl

IsHealthy-silent :
    (db : Database)
    → All (IsHealthy db.messages) db.balances
    → collect_payment_consistency_metrics db ≡ silent
unfolding collect_payment_consistency_metrics
IsHealthy-silent db a =
    let ms = db.messages in
    let none_of : (p : Balance → Bool)
        → ((b : Balance) → IsHealthy ms b → p b ≡ false)
        → count p db.balances ≡ 0 =
      λ p f.
        count-none p db.balances (All-imply (IsHealthy ms) (λ b. p b ≡ false) db.balances f a) in
    rw
      (
        none_of (λ b. ltb_ℤ b.credits (pos 0)) (quiet_credits ms),
        none_of (λ b. ltb_ℤ b.reserved_credits (pos 0)) (quiet_reserved ms),
        none_of (λ b. ltb_ℤ b.credits b.reserved_credits) (quiet_exceeds ms),
        none_of
            (λ b. ltb_ℤ (pos 0) b.reserved_credits && eq_ℤ (reserved_total ms b.user_id) (pos 0))
            (quiet_without ms),
        none_of (λ b. not (eq_ℤ b.reserved_credits (reserved_total ms b.user_id)))
            (quiet_mismatch ms),
      )
      refl

silent-IsHealthy :
    (db : Database)
    → collect_payment_consistency_metrics db ≡ silent
    → All (IsHealthy db.messages) db.balances
unfolding collect_payment_consistency_metrics
silent-IsHealthy db h =
    let ms = db.messages in
    let bs = db.balances in
    let negative : Balance → Bool = λ b. ltb_ℤ b.reserved_credits (pos 0) in
    let exceeds : Balance → Bool = λ b. ltb_ℤ b.credits b.reserved_credits in
    let mismatch : Balance → Bool =
      λ b. not (eq_ℤ b.reserved_credits (reserved_total ms b.user_id)) in
    All-imply (λ b. (negative b ≡ false) × ((exceeds b ≡ false) × (mismatch b ≡ false)))
      (IsHealthy ms) bs (λ b q. quiet-IsHealthy ms b q.0 q.1.0 q.1.1)
      (All-and (λ b. negative b ≡ false) (λ b. (exceeds b ≡ false) × (mismatch b ≡ false)) bs
        (none-count negative bs (ap (λ v. v.negative_reserved_credits) h))
        (All-and (λ b. exceeds b ≡ false) (λ b. mismatch b ≡ false) bs
          (none-count exceeds bs (ap (λ v. v.reserved_exceeds_credits) h))
          (none-count mismatch bs (ap (λ v. v.message_balance_mismatch) h))))

-- All five payment alarms are 0 exactly if each balance reserves no less than 0, no more than its
-- credits, and just the costs of its user's reserved messages.
pub collect_payment_consistency_metrics_lem :
    (db : Database)
    → (collect_payment_consistency_metrics db ≡ silent → All (IsHealthy db.messages) db.balances)
      × (All (IsHealthy db.messages) db.balances → collect_payment_consistency_metrics db ≡ silent)
collect_payment_consistency_metrics_lem db = (silent-IsHealthy db, IsHealthy-silent db)

-- A row of a table with unique keys is found by its key.
Keyed-All :
    (P : Balance → Type 0) (bs : List Balance)
    → Keyed balance_key bs
    → ((u : ℕ) (b : Balance) → find balance_key u bs ≡ some b → P b)
    → All P bs
Keyed-All P [] k f = tt
Keyed-All P (b ∷ bs) k f = (
  f b.user_id b (ground arith),
  Keyed-All P bs k.1 (λ u c h.
      f u c (elim (Bool-cases (b.user_id == u)) [
        | inl e ↦ ground (arith, k.0, h, e)
        | inr e ↦ rw e h
      ])),
)

-- From a consistent start, any history of transactions whose last database has one balance for
-- each user leaves all five payment alarms at 0.
pub Run-silent :
    (start db : Database) (ds : List Deposit)
    → Run start ds db
    → Inv start
    → Keyed balance_key db.balances
    → collect_payment_consistency_metrics db ≡ silent
Run-silent start db ds r inv k =
    let end = Run-Inv start db ds r inv in
    IsHealthy-silent db (
      Keyed-All (IsHealthy db.messages) db.balances k (λ u b h.
        let (sound, e) = end.funded u b h in
        (
          sound.nonneg,
          sound.covered,
          subst (λ v. b.reserved_credits ≡ total_in PaymentStatus.reserved v db.messages)
              (sym (find_key balance_key u db.balances b h)) e,
        )))
