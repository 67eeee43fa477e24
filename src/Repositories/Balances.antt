-- ===== src/Repositories/Balances.antt =====
-- src/infra/db/repositories/balance.py (`BalanceRepositry`). The change of the row is flushed at the
-- commit; no transaction changes a balance twice or queries after it, so each operation flushes.
use abrio.Prelude.{ℕ}
use abrio.Prelude.Int.{ℤ, pos, ◌+ℤ◌, ◌-ℤ◌, leb_ℤ}
use abrio.Domain.Errors.{Error}
use abrio.Database.Table.{find}
use abrio.Database.Rows.{Balance, balance_key}
use abrio.Database.Session.{Tx, pure, gets, or_raise, raise_if, ◌>>=◌, ◌>>◌}
use abrio.Database.Constraints.{update_balance}

unfoldable pub get_by_user_id : ℕ → Tx Balance
get_by_user_id user_id = do
  balance ← gets (λ db. find balance_key user_id db.balances)
  or_raise balance (Error.user_not_found user_id)

unfoldable pub validate_amount : ℤ → Tx (Unit {0})
validate_amount amount = raise_if (leb_ℤ amount (pos 0)) (Error.invalid_amount_value amount)

flushed : Balance → Tx Balance
flushed b = update_balance b >> pure b

unfoldable pub topup_user_credits : ℕ → ℤ → Tx Balance
unfolding get_by_user_id validate_amount flushed
topup_user_credits user_id amount = do
  validate_amount amount
  balance ← get_by_user_id user_id
  flushed (record balance { credits = balance.credits +ℤ amount })

unfoldable pub deduct_user_credits : ℕ → ℤ → Tx Balance
unfolding get_by_user_id validate_amount flushed
deduct_user_credits user_id amount = do
  validate_amount amount
  balance ← get_by_user_id user_id
  flushed (record balance { credits = balance.credits -ℤ amount })

unfoldable pub topup_user_reserved_credits : ℕ → ℤ → Tx Balance
unfolding get_by_user_id validate_amount flushed
topup_user_reserved_credits user_id amount = do
  validate_amount amount
  balance ← get_by_user_id user_id
  flushed (record balance { reserved_credits = balance.reserved_credits +ℤ amount })

unfoldable pub deduct_user_reserved_credits : ℕ → ℤ → Tx Balance
unfolding get_by_user_id validate_amount flushed
deduct_user_reserved_credits user_id amount = do
  validate_amount amount
  balance ← get_by_user_id user_id
  flushed (record balance { reserved_credits = balance.reserved_credits -ℤ amount })

unfoldable pub zero_user_credits : ℕ → Tx Balance
unfolding get_by_user_id flushed
zero_user_credits user_id = do
  balance ← get_by_user_id user_id
  flushed (record balance { credits = pos 0; reserved_credits = pos 0 })

unfoldable pub reserve_credits : ℕ → ℤ → Tx Balance
unfolding validate_amount topup_user_reserved_credits
reserve_credits user_id amount = do
  validate_amount amount
  topup_user_reserved_credits user_id amount

unfoldable pub release_credits : ℕ → ℤ → Tx Balance
unfolding validate_amount deduct_user_reserved_credits
release_credits user_id amount = do
  validate_amount amount
  deduct_user_reserved_credits user_id amount

unfoldable pub settle : ℕ → ℤ → Tx Balance
unfolding get_by_user_id validate_amount flushed
settle user_id amount = do
  validate_amount amount
  balance ← get_by_user_id user_id
  flushed (record balance {
    credits = balance.credits -ℤ amount;
    reserved_credits = balance.reserved_credits -ℤ amount;
  })
