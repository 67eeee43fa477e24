-- ===== src/Ledger/Accounts.antt =====
-- The balance operations of src/infra/db/repositories/balance.py on a balance that covers them.
use abrio.Prelude.{ℕ, ◌≡◌, some, arith, Option-cases, inl, inr}
use abrio.Prelude.Int.{ℤ, pos, ◌-ℤ◌, ◌≤ℤ◌, ◌<ℤ◌, int_laws, ◌+ℤ◌}
use abrio.Database.Table.{find, save}
use abrio.Database.Rows.{Balance, Database, balance_key}
use abrio.Database.Session.{ok}
use abrio.Database.Constraints.{update_balance, numeric_limit}
use abrio.Repositories.Balances.{settle, release_credits, reserve_credits}
use abrio.Ledger.Consistent.{IsSound}

abbrev pub with_balance : Balance → Database → Database
with_balance b db = record db { balances = save balance_key b db.balances }

-- A sound balance passes every check of its flush.
pub update_balance_ok :
    (b : Balance) (db : Database) → IsSound b → update_balance b db ≡ ok (tt, with_balance b db)
unfolding update_balance
update_balance_ok b db s = ground arith

abbrev pub settled : Balance → ℤ → Balance
settled b a = record b { credits = b.credits -ℤ a; reserved_credits = b.reserved_credits -ℤ a }

abbrev pub released : Balance → ℤ → Balance
released b a = record b { reserved_credits = b.reserved_credits -ℤ a }

module _ (b : Balance) (a : ℤ) (s : IsSound b) (p : pos 0 <ℤ a) (h : a ≤ℤ b.reserved_credits) where
  pub settled-IsSound : IsSound (settled b a)
  settled-IsSound = record {
    nonneg = omega (int_laws, s.nonneg);
    covered = omega (int_laws, s.covered);
    bounded = omega (int_laws, s.bounded);
  }

  pub released-IsSound : IsSound (released b a)
  released-IsSound = record {
    nonneg = omega (int_laws, s.nonneg);
    covered = omega (int_laws, s.covered);
    bounded = omega (int_laws, s.bounded);
  }

  pub settle_ok :
      (u : ℕ) (db : Database)
      → find balance_key u db.balances ≡ some b
      → settle u a db ≡ ok (settled b a, with_balance (settled b a) db)
  unfolding settle
  settle_ok u db f = ground (arith, update_balance_ok (settled b a) db settled-IsSound)

  pub release_credits_ok :
      (u : ℕ) (db : Database)
      → find balance_key u db.balances ≡ some b
      → release_credits u a db ≡ ok (released b a, with_balance (released b a) db)
  unfolding release_credits
  release_credits_ok u db f = ground (arith, update_balance_ok (released b a) db released-IsSound)

abbrev pub reserved_more : Balance → ℤ → Balance
reserved_more b a = record b { reserved_credits = b.reserved_credits +ℤ a }

-- A flush that passes was of a sound balance.
pub update_balance_sound :
    (b : Balance) (db db' : Database)
    → update_balance b db ≡ ok (tt, db')
    → (pos 0 ≤ℤ b.reserved_credits)
      × (b.reserved_credits ≤ℤ b.credits)
      × (b.credits <ℤ numeric_limit)
      × (db' ≡ with_balance b db)
unfolding update_balance
update_balance_sound b db db' h = (ground arith, ground arith, ground arith, ground arith)

-- A reservation that passes raises the reserved credits of a balance that covers it.
pub reserve_credits_inv :
    (u : ℕ) (a : ℤ) (db db' : Database) (r : Balance)
    → reserve_credits u a db ≡ ok (r, db')
    → (b : Balance) × (find balance_key u db.balances ≡ some b)
      × (pos 0 <ℤ a)
      × (update_balance (reserved_more b a) db ≡ ok (tt, db'))
unfolding reserve_credits
reserve_credits_inv u a db db' r h = elim (Option-cases (find balance_key u db.balances)) [
  | inl missing ↦ ground arith
  | inr (b, hb) ↦ (b, hb, ground arith, ground arith)
]
