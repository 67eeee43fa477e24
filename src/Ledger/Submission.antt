-- ===== src/Ledger/Submission.antt =====
-- The transaction of src/app/usecases/messages.py on a consistent database.
use abrio.Repositories.Balances.{reserve_credits}
use abrio.Database.Constraints.{insert_messages, insert_jobs}
use abrio.Database.Session.{ok, >>=-eq-ok}
use abrio.Prelude.{
  ℕ, ◌≡◌, refl, sym, subst, ap, inl, inr, true, false, some, List, [], ◌∷◌, ◌++◌, ◌==◌, is_some,
  All, Bool-cases, ==→eq, arith, ◌∙◌,
}
use abrio.Prelude.Int.{ℤ, pos, int_laws}
use abrio.Domain.Enums.{PaymentStatus}
use abrio.Database.Table.{
  find, save, find_key, find-append, find-save_self, find-save_ne, total-append,
}
use abrio.Database.Rows.{Balance, Message, DispatchJob, Database, balance_key, message_key}
use abrio.UseCases.Submission.{Draws, new_jobs, submit}
use abrio.Ledger.Consistent.{
  Inv, Conserves, Funded, Priced, Backed, Linked, IsSound, total_in, cost_in,
}
use abrio.Ledger.Accounts.{reserved_more, with_balance, reserve_credits_inv, update_balance_sound}
use abrio.Ledger.Save.{cost_in_elsewhere, cost_in_other, Backed-save_balance}
use abrio.Ledger.Insert.{
  Tied, Reserved, with_messages, with_jobs, insert_messages_inv, insert_jobs_inv,
}

abbrev pub OwnedBy : ℕ → List Message → Type 0
OwnedBy u = All (λ m. m.user_id ≡ u)

Priced-append : (xs ys : List Message) → Priced xs → Priced ys → Priced (xs ++ ys)
Priced-append [] ys hx hy = hy
Priced-append (x ∷ xs) ys hx hy = (hx.0, Priced-append xs ys hx.1 hy)

Backed-append :
    (bs : List Balance) (xs ys : List Message) → Backed bs xs → Backed bs ys → Backed bs (xs ++ ys)
Backed-append bs [] ys hx hy = hy
Backed-append bs (x ∷ xs) ys hx hy = (hx.0, Backed-append bs xs ys hx.1 hy)

Backed-OwnedBy :
    (bs : List Balance) (u : ℕ) (ms : List Message)
    → is_some (find balance_key u bs) ≡ true
    → OwnedBy u ms
    → Backed bs ms
Backed-OwnedBy bs u [] h o = tt
Backed-OwnedBy bs u (m ∷ ms) h o = (rw (o.0) h, Backed-OwnedBy bs u ms h o.1)

Linked-append : (xs ys : List Message) (js : List DispatchJob) → Linked xs js → Linked (xs ++ ys) js
Linked-append xs ys js lk k j h =
    let (m, hm, ag) = lk k j h in (m, find-append message_key j.message_id xs ys m hm, ag)

-- New messages of one user are no other user's, and spend nothing.
total_in-other :
    (p : PaymentStatus) (u v : ℕ) (ms : List Message)
    → OwnedBy u ms
    → (u == v) ≡ false
    → total_in p v ms ≡ pos 0
total_in-other p u v [] o n = refl
total_in-other p u v (m ∷ ms) o n =
    rw (cost_in_elsewhere p v m (rw (o.0) n), total_in-other p u v ms o.1 n) (omega int_laws)

total_in-deducted :
    (v : ℕ) (ms : List Message) → Reserved ms → total_in PaymentStatus.deducted v ms ≡ pos 0
total_in-deducted v [] r = refl
total_in-deducted v (m ∷ ms) r =
    rw (cost_in_other PaymentStatus.deducted v m (rw (r.0) (λ e. cc)), total_in-deducted v ms r.1)
      (omega int_laws)

-- The rows that a submission leaves.
abbrev pub submitted : Draws → ℕ → ℤ → List Message → Balance → Database → Database
submitted d now cost ms b db = record db {
  balances = save balance_key (reserved_more b cost) db.balances;
  messages = db.messages ++ ms;
  jobs = db.jobs ++ new_jobs d now 0 ms;
}

module _ (d : Draws) (now u : ℕ) (cost : ℤ) (ms : List Message) (b : Balance) (db : Database)
    (inv : Inv db) (hb : find balance_key u db.balances ≡ some b) (own : OwnedBy u ms)
    (res : Reserved ms) (sum : total_in PaymentStatus.reserved u ms ≡ cost) where
  ub : b.user_id ≡ u
  ub = find_key balance_key u db.balances b hb

  own_find :
      find balance_key u (save balance_key (reserved_more b cost) db.balances)
      ≡ some (reserved_more b cost)
  own_find =
      subst
        (λ k.
          find balance_key k (save balance_key (reserved_more b cost) db.balances)
          ≡ some (reserved_more b cost))
        ub
        (find-save_self balance_key (reserved_more b cost) b db.balances
          (subst (λ k. find balance_key k db.balances ≡ some b) (sym ub) hb))

  Funded-submitted :
      IsSound (reserved_more b cost)
      → Funded (save balance_key (reserved_more b cost) db.balances) (db.messages ++ ms)
  Funded-submitted s v x hx = elim (Bool-cases (u == v)) [
    | inl e ↦
        let ev : u ≡ v = ==→eq u v e in
        let ex : x ≡ reserved_more b cost = ground (arith, own_find) in
        (
          rw ex s,
          rw (
            ex,
            ← ev,
            total-append message_key (cost_in PaymentStatus.reserved u) db.messages ms,
            sum,
            (inv.funded u b hb).1,
          ),
        )
    | inr n ↦
        let old : find balance_key v db.balances ≡ some x =
          ground (arith, find-save_ne balance_key v (reserved_more b cost) db.balances, ub) in
        (
          (inv.funded v x old).0,
          rw
              (
                total-append message_key (cost_in PaymentStatus.reserved v) db.messages ms,
                total_in-other PaymentStatus.reserved u v ms own n,
                (inv.funded v x old).1,
              )
              (omega int_laws),
        )
  ]

  Inv-submitted :
      IsSound (reserved_more b cost)
      → Priced ms
      → Tied (with_jobs (new_jobs d now 0 ms) (with_messages ms db))
      → Inv (submitted d now cost ms b db)
  Inv-submitted s price t = record {
    funded = Funded-submitted s;
    priced = Priced-append db.messages ms inv.priced price;
    backed =
        Backed-append (save balance_key (reserved_more b cost) db.balances) db.messages ms
          (Backed-save_balance (reserved_more b cost) db.balances db.messages inv.backed)
          (Backed-OwnedBy (save balance_key (reserved_more b cost) db.balances) u ms (rw own_find)
            own);
    linked = t.0;
    unshared = t.1;
    keyed = t.2;
  }

  spent :
      (v : ℕ)
      → total_in PaymentStatus.deducted v (db.messages ++ ms)
        ≡ total_in PaymentStatus.deducted v db.messages
  spent v =
      rw
        (
          total-append message_key (cost_in PaymentStatus.deducted v) db.messages ms,
          total_in-deducted v ms res,
        )
        (omega int_laws)

  Conserves-submitted : Conserves db (submitted d now cost ms b db)
  Conserves-submitted v x hx = elim (Bool-cases (u == v)) [
    | inl e ↦
        let ev : u ≡ v = ==→eq u v e in
        let ex : b ≡ x = ground arith in
        (reserved_more b cost, rw (← ev) own_find, rw (spent v, ap (λ y. y.credits) ex))
    | inr n ↦ (
      x,
      ground (arith, find-save_ne balance_key v (reserved_more b cost) db.balances, ub),
      rw (spent v),
    )
  ]

-- A submission that commits found a balance that covers it, and keeps the invariant.
pub submit-Inv :
    (d : Draws) (now u : ℕ) (cost : ℤ) (ms : List Message) (db db' : Database) (x : Unit {0})
    → submit d now u cost ms db ≡ ok (x, db')
    → Inv db
    → OwnedBy u ms
    → Reserved ms
    → total_in PaymentStatus.reserved u ms ≡ cost
    → (b : Balance) × (find balance_key u db.balances ≡ some b)
      × IsSound (reserved_more b cost)
      × (db' ≡ submitted d now cost ms b db)
      × Inv db'
      × Conserves db db'
unfolding submit
submit-Inv d now u cost ms db db' x h inv own res sum =
    let (_, d1, h1, k1) = >>=-eq-ok (insert_messages ms) _ db h in
    let (_, d2, h2, k2) = >>=-eq-ok (insert_jobs (new_jobs d now 0 ms)) _ d1 k1 in
    let (r, d3, h3, k3) = >>=-eq-ok (reserve_credits u cost) _ d2 k2 in
    let (price, stored, e1) = insert_messages_inv ms db d1 h1 in
    let t1 : Tied (with_messages ms db) =
      (Linked-append db.messages ms db.jobs inv.linked, inv.unshared, inv.keyed) in
    let (e2, t2) = insert_jobs_inv d now 0 ms d1 d2 h2 res stored (subst Tied (sym e1) t1) in
    let e12 : d2 ≡ with_jobs (new_jobs d now 0 ms) (with_messages ms db) =
      e2 ∙ ap (with_jobs (new_jobs d now 0 ms)) e1 in
    let (b, hb, p, flush) = reserve_credits_inv u cost d2 d3 r h3 in
    let (nn, cv, bd, e3) = update_balance_sound (reserved_more b cost) d2 d3 flush in
    let s : IsSound (reserved_more b cost) = record { nonneg = nn; covered = cv; bounded = bd } in
    let hb0 : find balance_key u db.balances ≡ some b =
      subst (λ D. find balance_key u D.balances ≡ some b) e12 hb in
    let same : d3 ≡ db' = ground arith in
    let e : db' ≡ submitted d now cost ms b db =
      sym same ∙ e3 ∙ ap (with_balance (reserved_more b cost)) e12 in
    (
      b,
      hb0,
      s,
      e,
      subst Inv (sym e)
          (Inv-submitted d now u cost ms b db inv hb0 own res sum s price (subst Tied e12 t2)),
      subst (Conserves db) (sym e) (Conserves-submitted d now u cost ms b db inv hb0 own res sum),
    )
