-- ===== src/Monitor/Collect.antt =====
-- src/core/metrics.py: the two queries behind the gauges. A gauge's value by label is a field or an
-- argument; a query's result is what the code sets.
use abrio.Prelude.{
  ℕ, count, ◌-◌, min, Bool, ◌&&◌, not, Option, none, some, List, [], ◌∷◌, ◌==◌, leb, keep,
}
use abrio.Prelude.Int.{ℤ, pos, ◌+ℤ◌, leb_ℤ, ltb_ℤ}
use abrio.Domain.Enums.{MessagePriority, PaymentStatus, payment_eq, priority_eq}
use abrio.Database.Rows.{Message, DispatchJob, Database}
use abrio.Repositories.Jobs.{is_waiting, is_older}

abbrev pub eq_ℤ : ℤ → ℤ → Bool
eq_ℤ a b = leb_ℤ a b && leb_ℤ b a

abbrev pub sum_costs : List Message → ℤ
sum_costs [] = pos 0
sum_costs (m ∷ ms) = m.cost +ℤ sum_costs ms

-- `reserved_total` of a user, joined to the balance; 0 for a user with no reserved message.
unfoldable pub reserved_total : List Message → ℕ → ℤ
reserved_total ms u =
    sum_costs (keep (λ m. m.user_id == u && payment_eq m.payment_status PaymentStatus.reserved) ms)

-- `PAYMENT_CONSISTENCY_VIOLATIONS` by its label.
pub record Violations : Type 0 where
  pub negative_credits : ℕ
  pub negative_reserved_credits : ℕ
  pub reserved_exceeds_credits : ℕ
  pub reserved_without_message : ℕ
  pub message_balance_mismatch : ℕ

-- `_collect_payment_consistency_metrics`
unfoldable pub collect_payment_consistency_metrics : Database → Violations
unfolding reserved_total
collect_payment_consistency_metrics db = record {
  negative_credits = count (λ b. ltb_ℤ b.credits (pos 0)) db.balances;
  negative_reserved_credits = count (λ b. ltb_ℤ b.reserved_credits (pos 0)) db.balances;
  reserved_exceeds_credits = count (λ b. ltb_ℤ b.credits b.reserved_credits) db.balances;
  reserved_without_message =
      count
        (λ b.
          ltb_ℤ (pos 0) b.reserved_credits && eq_ℤ (reserved_total db.messages b.user_id) (pos 0))
        db.balances;
  message_balance_mismatch =
      count (λ b. not (eq_ℤ b.reserved_credits (reserved_total db.messages b.user_id))) db.balances;
}

abbrev is_unlocked : Option ℕ → ℕ → Bool
is_unlocked none now = Bool.true
is_unlocked (some t) now = is_older (some t) now 60

-- The WHERE clause of `ready_query` and its group.
unfoldable pub is_ready : MessagePriority → ℕ → DispatchJob → Bool
is_ready p now j =
    is_waiting j.status
    && leb j.available_at now
    && is_unlocked j.locked_at now
    && priority_eq j.priority p

-- `MIN(created_at)`
abbrev pub oldest : List DispatchJob → Option ℕ
oldest [] = none
oldest (j ∷ js) = elim (oldest js) [ none ↦ some j.created_at | some t ↦ some (min j.created_at t) ]

-- `max(0.0, now - oldest_created_at)`, in microseconds, or 0 with no row.
abbrev pub age : ℕ → Option ℕ → ℕ
age now none = 0
age now (some t) = now - t

-- `DISPATCH_READY_JOBS` and `DISPATCH_OLDEST_READY_AGE` for one priority.
pub record Ready : Type 0 where
  pub jobs : ℕ
  pub oldest_age : ℕ

-- `_collect_dispatch_ready_metrics`; a priority with no row has (0, 0.0).
unfoldable pub collect_dispatch_ready_metrics : ℕ → List DispatchJob → MessagePriority → Ready
unfolding is_ready
collect_dispatch_ready_metrics now js p = record {
  jobs = count (is_ready p now) js;
  oldest_age = age now (oldest (keep (is_ready p now) js));
}
