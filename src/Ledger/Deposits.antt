-- ===== src/Ledger/Deposits.antt =====
-- Top-ups, new users and zeroed accounts (src/app/usecases/balance.py and users.py) on a consistent
-- database.
use abrio.Prelude.{
  ℕ, ◌≡◌, refl, sym, subst, ap, ◌∙◌, inl, inr, some, none, List, [], ◌∷◌, ◌++◌, ◌==◌, Text,
  Bool-cases, Option-cases, ==→eq, arith,
}
use abrio.Prelude.Int.{ℤ, pos, ◌+ℤ◌, ◌<ℤ◌, int_laws}
use abrio.Domain.Enums.{PaymentStatus}
use abrio.Database.Table.{
  find, save, find_key, find-save_self, find-save_ne, find-append, find-append_none,
}
use abrio.Database.Rows.{Balance, User, Message, Database, balance_key}
use abrio.Database.Session.{ok}
use abrio.Database.Constraints.{update_balance}
use abrio.Repositories.Balances
use abrio.UseCases.Accounts.{insert_user}
use abrio.Ledger.Consistent.{Inv, Conserves, Funded, Backed, IsSound, total_in}
use abrio.Ledger.Accounts.{with_balance, update_balance_sound}
use abrio.Ledger.Save.{Backed-save_balance, cost_in_elsewhere}

abbrev pub topped_up : Balance → ℤ → Balance
topped_up b a = record b { credits = b.credits +ℤ a }

topup_inv :
    (u : ℕ) (a : ℤ) (db db' : Database) (r : Balance)
    → Balances.topup_user_credits u a db ≡ ok (r, db')
    → (b : Balance) × (find balance_key u db.balances ≡ some b)
      × (pos 0 <ℤ a)
      × (r ≡ topped_up b a)
      × (update_balance (topped_up b a) db ≡ ok (tt, db'))
unfolding Balances.topup_user_credits
topup_inv u a db db' r h = elim (Option-cases (find balance_key u db.balances)) [
  | inl missing ↦ ground arith
  | inr (b, hb) ↦ (b, hb, ground arith, ground arith, ground arith)
]

module _ (u : ℕ) (a : ℤ) (b : Balance) (db : Database) (inv : Inv db)
    (hb : find balance_key u db.balances ≡ some b) where
  own_find :
      find balance_key u (save balance_key (topped_up b a) db.balances) ≡ some (topped_up b a)
  own_find =
      let ub = find_key balance_key u db.balances b hb in
      subst
        (λ k.
          find balance_key k (save balance_key (topped_up b a) db.balances) ≡ some (topped_up b a))
        ub
        (find-save_self balance_key (topped_up b a) b db.balances
          (subst (λ k. find balance_key k db.balances ≡ some b) (sym ub) hb))

  Funded-topup :
      IsSound (topped_up b a) → Funded (save balance_key (topped_up b a) db.balances) db.messages
  Funded-topup s v x hx = elim (Bool-cases (u == v)) [
    | inl e ↦
        let ev : u ≡ v = ==→eq u v e in
        let ex : x ≡ topped_up b a = ground (arith, own_find) in
        (rw ex s, rw (ex, ← ev) ((inv.funded u b hb).1))
    | inr n ↦ inv.funded v x (
        ground (
          arith,
          find-save_ne balance_key v (topped_up b a) db.balances,
          find_key balance_key u db.balances b hb,
        ))
  ]

-- A top-up that commits on a consistent database keeps the invariant, writes no message, and saves
-- the user's balance with the amount added to its credits.
pub topup-Inv :
    (u : ℕ) (a : ℤ) (db db' : Database) (r : Balance)
    → Inv db
    → Balances.topup_user_credits u a db ≡ ok (r, db')
    → Inv db'
      × (db'.messages ≡ db.messages)
      × (db'.balances ≡ save balance_key r db.balances)
      × ((b : Balance) × (find balance_key u db.balances ≡ some b) × (r ≡ topped_up b a))
topup-Inv u a db db' r inv h =
    let (b, hb, p, er, flush) = topup_inv u a db db' r h in
    let (nn, cv, bd, e) = update_balance_sound (topped_up b a) db db' flush in
    let good : Inv (with_balance (topped_up b a) db) = record {
      funded = Funded-topup u a b db inv hb (record { nonneg = nn; covered = cv; bounded = bd });
      priced = inv.priced;
      backed = Backed-save_balance (topped_up b a) db.balances db.messages inv.backed;
      linked = inv.linked;
      unshared = inv.unshared;
      keyed = inv.keyed;
    } in
    (
      subst Inv (sym e) good,
      ap (λ D. D.messages) e,
      ap (λ D. D.balances) e ∙ ap (λ y. save balance_key y db.balances) (sym er),
      (b, hb, er),
    )

abbrev empty_balance : ℕ → Balance
empty_balance id = record { user_id = id; credits = pos 0; reserved_credits = pos 0 }

abbrev with_user : ℕ → Text → Database → Database
with_user id name db = record db {
  users = db.users ++ record { id = id; name = name } ∷ [];
  balances = db.balances ++ empty_balance id ∷ [];
}

insert_user_inv :
    (id : ℕ) (name : Text) (db db' : Database) (r : User)
    → insert_user id name db ≡ ok (r, db')
    → (find balance_key id db.balances ≡ none) × (db' ≡ with_user id name db)
unfolding insert_user
insert_user_inv id name db db' r h = (ground arith, ground arith)

-- A user without a balance has no messages.
total_in-unknown :
    (p : PaymentStatus) (u : ℕ) (bs : List Balance) (ms : List Message)
    → Backed bs ms
    → find balance_key u bs ≡ none
    → total_in p u ms ≡ pos 0
total_in-unknown p u bs [] h n = refl
total_in-unknown p u bs (m ∷ ms) h n = elim (Bool-cases (m.user_id == u)) [
  | inl e ↦
      absurd (
        ground
          (arith, h.0, subst (λ v. find balance_key v bs ≡ none) (sym (==→eq m.user_id u e)) n))
  | inr other ↦
      rw (cost_in_elsewhere p u m other, total_in-unknown p u bs ms h.1 n) (omega int_laws)
]

Backed-more : (bs more : List Balance) (ms : List Message) → Backed bs ms → Backed (bs ++ more) ms
Backed-more bs more [] h = tt
Backed-more bs more (m ∷ ms) h = (
  elim (Option-cases (find balance_key m.user_id bs)) [
    | inl missing ↦ absurd (ground (arith, h.0))
    | inr (b, hb) ↦ rw (find-append balance_key m.user_id bs more b hb)
  ],
  Backed-more bs more ms h.1,
)

empty-IsSound : (id : ℕ) → IsSound (empty_balance id)
empty-IsSound id = record { nonneg = omega arith; covered = omega arith; bounded = omega arith }

Funded-more :
    (id : ℕ) (bs : List Balance) (ms : List Message)
    → Funded bs ms
    → Backed bs ms
    → find balance_key id bs ≡ none
    → Funded (bs ++ empty_balance id ∷ []) ms
Funded-more id bs ms f bk new u b hb = elim (Option-cases (find balance_key u bs)) [
  | inl missing ↦
      let later = find-append_none balance_key u bs (empty_balance id ∷ []) missing in
      let e : b ≡ empty_balance id = ground (arith, later) in
      subst (λ x. IsSound x × (x.reserved_credits ≡ total_in PaymentStatus.reserved u ms)) (sym e)
        (empty-IsSound id, sym (total_in-unknown PaymentStatus.reserved u bs ms bk missing))
  | inr (x, hx) ↦ f u b (ground (arith, find-append balance_key u bs (empty_balance id ∷ []) x hx))
]

-- A user created on a consistent database keeps the invariant and changes nobody's money.
pub insert_user-Inv :
    (id : ℕ) (name : Text) (db db' : Database) (r : User)
    → Inv db
    → insert_user id name db ≡ ok (r, db')
    → Inv db' × Conserves db db'
insert_user-Inv id name db db' r inv h =
    let (new, e) = insert_user_inv id name db db' r h in
    let good : Inv (with_user id name db) = record {
      funded = Funded-more id db.balances db.messages inv.funded inv.backed new;
      priced = inv.priced;
      backed = Backed-more db.balances (empty_balance id ∷ []) db.messages inv.backed;
      linked = inv.linked;
      unshared = inv.unshared;
      keyed = inv.keyed;
    } in
    (
      subst Inv (sym e) good,
      subst (Conserves db) (sym e)
          (λ u b hb. (b, find-append balance_key u db.balances (empty_balance id ∷ []) b hb, refl)),
    )

zeroed_inv :
    (u : ℕ) (db db' : Database) (r : Balance)
    → Balances.zero_user_credits u db ≡ ok (r, db')
    → (b : Balance) × (find balance_key u db.balances ≡ some b)
      × (db' ≡ with_balance (record b { credits = pos 0; reserved_credits = pos 0 }) db)
unfolding Balances.zero_user_credits update_balance
zeroed_inv u db db' r h = elim (Option-cases (find balance_key u db.balances)) [
  | inl missing ↦ ground arith
  | inr (b, hb) ↦ (b, hb, ground arith)
]

zero_not_positive : (x : ℤ) → pos 0 ≡ x → pos 0 <ℤ x → ⊥
zero_not_positive x e h =
    let no : pos 0 <ℤ pos 0 = subst (λ y. pos 0 <ℤ y) (sym e) h in omega (arith, no)

-- Zeroing the account of a user whose reserved messages cost more than nothing leaves a database
-- that is not consistent.
pub zero_user_credits-Breaks :
    (u : ℕ) (db db' : Database) (r : Balance)
    → Balances.zero_user_credits u db ≡ ok (r, db')
    → pos 0 <ℤ total_in PaymentStatus.reserved u db.messages
    → ¬ Inv db'
zero_user_credits-Breaks u db db' r h owed bad =
    let (b, hb, e) = zeroed_inv u db db' r h in
    let z : Balance = record b { credits = pos 0; reserved_credits = pos 0 } in
    let ub = find_key balance_key u db.balances b hb in
    let good : Inv (with_balance z db) = subst Inv e bad in
    let hz : find balance_key u (save balance_key z db.balances) ≡ some z =
      subst (λ k. find balance_key k (save balance_key z db.balances) ≡ some z) ub
        (find-save_self balance_key z b db.balances
          (subst (λ k. find balance_key k db.balances ≡ some b) (sym ub) hb)) in
    let covers : pos 0 ≡ total_in PaymentStatus.reserved u db.messages = (good.funded u z hz).1 in
    zero_not_positive (total_in PaymentStatus.reserved u db.messages) covers owed
