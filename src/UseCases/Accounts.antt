-- ===== src/UseCases/Accounts.antt =====
-- src/app/usecases/balance.py and users.py, with src/infra/db/repositories/users.py.
use abrio.Prelude.{ℕ, List, [], ◌∷◌, ◌++◌, ◌||◌, is_some, Text}
use abrio.Prelude.Int.{ℤ, pos}
use abrio.Domain.Errors.{Error, unique_violation}
use abrio.Database.Table.{find}
use abrio.Database.Rows.{User, Balance, Database, user_key, balance_key}
use abrio.Database.Session.{Result, Tx, commit, pure, gets, or_raise, raise_if, modify, ◌>>=◌, ◌>>◌}
use abrio.Repositories.Balances

unfoldable pub topup_user_credits : ℕ → ℤ → Database → Result Balance × Database
topup_user_credits user_id amount = commit (Balances.topup_user_credits user_id amount)

unfoldable pub zero_user_credits : ℕ → Database → Result Balance × Database
zero_user_credits user_id = commit (Balances.zero_user_credits user_id)

unfoldable pub get_users : Tx (List User)
get_users = gets (λ db. db.users)

unfoldable pub get_user : ℕ → Tx User
get_user user_id = do
  user ← gets (λ db. find user_key user_id db.users)
  or_raise user (Error.user_not_found user_id)

-- The row `User(name=name, balance=Balance())`; `id` is the one that the sequence gives.
unfoldable pub insert_user : ℕ → Text → Tx User
insert_user id name = do
  taken ←
      gets (λ db. is_some (find user_key id db.users) || is_some (find balance_key id db.balances))
  raise_if taken (Error.integrity unique_violation)
  modify (λ db. record db {
    users = db.users ++ record { id = id; name = name } ∷ [];
    balances =
        db.balances ++ record { user_id = id; credits = pos 0; reserved_credits = pos 0 } ∷ [];
  })
  pure (record { id = id; name = name })

unfoldable pub create_user : ℕ → Text → Database → Result User × Database
unfolding insert_user
create_user id name = commit (insert_user id name)
