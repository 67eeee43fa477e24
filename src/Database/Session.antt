-- ===== src/Database/Session.antt =====
-- A transaction: state and exceptions. No state comes back with an exception, since it rolls back.
use abrio.Prelude.{
  Bool, true, false, Option, none, some, if◌then◌else◌, ◌≡◌, refl, ap, ◌⊎◌, inl, inr,
}
use abrio.Domain.Errors.{Error}
use abrio.Database.Rows.{Database}

pub data Result {ℓ} (A : Type ℓ) : Type ℓ where
  ok : A → Result A
  err : Error → Result A

abbrev pub Tx : Type 0 → Type 0
Tx A = Database → Result (A × Database)

infixl 5 ◌>>=◌ ◌>>◌
abbrev pub ◌>>=◌ : {A B : Type 0} → Tx A → (A → Tx B) → Tx B
◌>>=◌ m f db = elim (m db) [ ok (a, db') ↦ f a db' | err e ↦ err e ]

abbrev pub ◌>>◌ : {A B : Type 0} → Tx A → Tx B → Tx B
m >> k = m >>= λ _. k

module _ {A : Type 0} where
  abbrev pub pure : A → Tx A
  pure a db = ok (a, db)

  abbrev pub raise : Error → Tx A
  raise e db = err e

  abbrev pub gets : (Database → A) → Tx A
  gets f db = ok (f db, db)

  abbrev pub or_raise : Option A → Error → Tx A
  or_raise none e = raise e
  or_raise (some a) e = pure a

abbrev pub raise_if : Bool → Error → Tx (Unit {0})
raise_if true e db = err e
raise_if false e db = ok (tt, db)

-- `if` between two parts of a transaction.
abbrev pub branch : {A : Type 0} → Bool → Tx A → Tx A → Tx A
branch c t e db = if c then t db else e db

abbrev pub modify : (Database → Database) → Tx (Unit {0})
modify f db = ok (tt, f db)

-- `with session.begin(): ...` seen from outside: the result, and the database that is left.
abbrev pub commit : {A : Type 0} → Tx A → Database → Result A × Database
commit m db = elim (m db) [ ok (a, db') ↦ (ok a, db') | err e ↦ (err e, db) ]

bind_inv :
    {A B : Type 0} (r : Result (A × Database)) (f : A → Tx B) {x : B × Database}
    {s : Result (A × Database)}
    → s ≡ r
    → elim r [ ok (a, d) ↦ f a d | err e ↦ err e ] ≡ ok x
    → (a : A) × (d : Database) × (s ≡ ok (a, d)) × (f a d ≡ ok x)
bind_inv (ok (a, d)) f e h = (a, d, e, h)
bind_inv (err x) f e h = cc

-- A transaction that commits ran each of its parts.
pub >>=-eq-ok :
    {A B : Type 0} (m : Tx A) (f : A → Tx B) (db : Database) {x : B × Database}
    → (m >>= f) db ≡ ok x
    → (a : A) × (d : Database) × (m db ≡ ok (a, d)) × (f a d ≡ ok x)
>>=-eq-ok m f db h = bind_inv (m db) f refl h

-- An exception ends a transaction.
pub >>=-eq-err :
    {A B : Type 0} (m : Tx A) (f : A → Tx B) (db : Database) (e : Error)
    → m db ≡ err e
    → (m >>= f) db ≡ err e
>>=-eq-err m f db e h = ap (λ r. elim r [ ok (a, d) ↦ f a d | err x ↦ err x ]) h

pub Result-cases {ℓ} :
    {A : Type ℓ} (r : Result A) → ((e : Error) × (r ≡ err e)) ⊎ ((a : A) × (r ≡ ok a))
Result-cases (ok a) = inr (a, refl)
Result-cases (err e) = inl (e, refl)

-- The parts of a transaction that commits.
module _ {B : Type 0} (db : Database) {x : B × Database} where
  pub raise_if-ok :
      (b : Bool) (e : Error) (m : Tx B)
      → (raise_if b e >> m) db ≡ ok x
      → (b ≡ false) × (m db ≡ ok x)
  raise_if-ok true e m h = cc
  raise_if-ok false e m h = (refl, h)

  pub or_raise-ok :
      {A : Type 0} (o : Option A) (e : Error) (k : A → Tx B)
      → (or_raise o e >>= k) db ≡ ok x
      → (a : A) × (o ≡ some a) × (k a db ≡ ok x)
  or_raise-ok none e k h = cc
  or_raise-ok (some a) e k h = (a, refl, h)

  pub branch-ok :
      (b : Bool) (m k : Tx B)
      → branch b m k db ≡ ok x
      → ((b ≡ true) × (m db ≡ ok x)) ⊎ ((b ≡ false) × (k db ≡ ok x))
  branch-ok true m k h = inl (refl, h)
  branch-ok false m k h = inr (refl, h)

rolled_back :
    {A : Type 0} (r : Result (A × Database)) (db : Database) (e : Error)
    → r ≡ err e
    → (elim r as (λ _. Result A × Database) [ ok (a, d) ↦ (ok a, d) | err x ↦ (err x, db) ]).1 ≡ db
rolled_back (ok (a, d)) db e h = cc
rolled_back (err x) db e h = refl

-- An exception leaves the database as it was.
pub commit-err :
    {A : Type 0} (m : Tx A) (db : Database) (e : Error) → m db ≡ err e → (commit m db).1 ≡ db
commit-err m db e h = rolled_back (m db) db e h

committed :
    {A : Type 0} (r : Result (A × Database)) (db d : Database) (a : A)
    → r ≡ ok (a, d)
    → (elim r as (λ _. Result A × Database) [ ok (b, x) ↦ (ok b, x) | err e ↦ (err e, db) ]).1 ≡ d
committed (ok (b, x)) db d a h = cc
committed (err e) db d a h = cc

-- What a transaction that commits leaves.
pub commit-ok :
    {A : Type 0} (m : Tx A) (db d : Database) (a : A) → m db ≡ ok (a, d) → (commit m db).1 ≡ d
commit-ok m db d a h = committed (m db) db d a h
