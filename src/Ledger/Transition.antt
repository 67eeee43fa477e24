-- ===== src/Ledger/Transition.antt =====
-- The two ways in which a worker moves a job with its message: the payment stays reserved, or it is
-- settled or released.
use abrio.Prelude.{
  ℕ, ◌≡◌, ◌≢◌, inl, inr, true, some, List, [], ◌∷◌, ◌==◌, Bool-cases, ==→eq, All, arith,
}
use abrio.Prelude.Int.{pos, ◌+ℤ◌, ◌-ℤ◌, ◌≤ℤ◌, int_laws, exchange_eq}
use abrio.Domain.Enums.{PaymentStatus}
use abrio.Database.Table.{find, save, find-save_self, find-save_ne, le-total_of_find, Keyed-save}
use abrio.Database.Rows.{Balance, Message, DispatchJob, Database, balance_key, message_key, job_key}
use abrio.Ledger.Consistent.{Inv, Conserves, Priced, IsSound, agrees, cost_in}
use abrio.Ledger.Save.{
  Unshared-save, Linked-save, total_in-save, total_in-save_same, Priced-save, Backed-save,
  Funded-save_same, Funded-save_done, Backed-save_balance, cost_in_here, cost_in_elsewhere,
  cost_in_other,
}

cost_in_nonneg :
    (p : PaymentStatus) (u : ℕ) (ms : List Message)
    → Priced ms
    → All (λ m. pos 0 ≤ℤ cost_in p u m) ms
cost_in_nonneg p u [] h = tt
cost_in_nonneg p u (m ∷ ms) h = (ground arith, cost_in_nonneg p u ms h.1)

-- The reserved credits cover the cost of each reserved message.
pub cost-le-reserved :
    (db : Database) (k : ℕ) (m : Message) (b : Balance)
    → Inv db
    → find message_key k db.messages ≡ some m
    → m.payment_status ≡ PaymentStatus.reserved
    → find balance_key m.user_id db.balances ≡ some b
    → m.cost ≤ℤ b.reserved_credits
cost-le-reserved db k m b inv hm er hb =
    let here = cost_in_here PaymentStatus.reserved m.user_id m (ground arith) er in
    let least =
      le-total_of_find message_key (cost_in PaymentStatus.reserved m.user_id) k db.messages m
        (cost_in_nonneg PaymentStatus.reserved m.user_id db.messages inv.priced) hm in
    rw ((inv.funded m.user_id b hb).1, ← here) least

module _ (db : Database) (inv : Inv db) (j j' : DispatchJob) (m m' : Message)
    (hj : find job_key j'.id db.jobs ≡ some j) (ej : j'.message_id ≡ j.message_id)
    (hm : find message_key m'.id db.messages ≡ some m) (em : m'.id ≡ j'.message_id)
    (eu : m'.user_id ≡ m.user_id) (ec : m'.cost ≡ m.cost)
    (ag : agrees j'.status m'.payment_status ≡ true) where
  abbrev kept : Database
  kept = record db { messages = save message_key m' db.messages; jobs = save job_key j' db.jobs }

  pub keep-Inv : m'.payment_status ≡ m.payment_status → Inv kept
  keep-Inv ep = record {
    funded = Funded-save_same m m' db.messages hm eu ec db.balances ep inv.funded;
    priced = Priced-save m m' db.messages hm eu ec inv.priced;
    backed = Backed-save m m' db.messages hm eu ec db.balances inv.backed;
    linked = Linked-save j j' db.jobs hj m m' db.messages hm em ej ag inv.unshared inv.linked;
    unshared = Unshared-save j j' db.jobs hj ej inv.unshared;
    keyed = Keyed-save job_key j' db.jobs inv.keyed;
  }

  pub keep-Conserves : m'.payment_status ≡ m.payment_status → Conserves db kept
  keep-Conserves ep u b hb =
      (b, hb, rw (total_in-save_same m m' db.messages hm eu ec PaymentStatus.deducted u ep))

  module _ (b b' : Balance) (er : m.payment_status ≡ PaymentStatus.reserved)
      (ub : b'.user_id ≡ m.user_id) (hb : find balance_key m.user_id db.balances ≡ some b) where
    abbrev done : Database
    done = record db {
      balances = save balance_key b' db.balances;
      messages = save message_key m' db.messages;
      jobs = save job_key j' db.jobs;
    }

    pub done-Inv :
        m'.payment_status ≢ PaymentStatus.reserved
        → IsSound b'
        → b'.reserved_credits ≡ b.reserved_credits -ℤ m.cost
        → Inv done
    done-Inv en s eb = record {
      funded =
          Funded-save_done m m' db.messages hm eu ec b b' db.balances er en ub hb s eb inv.funded;
      priced = Priced-save m m' db.messages hm eu ec inv.priced;
      backed =
          Backed-save_balance b' db.balances (save message_key m' db.messages)
            (Backed-save m m' db.messages hm eu ec db.balances inv.backed);
      linked = Linked-save j j' db.jobs hj m m' db.messages hm em ej ag inv.unshared inv.linked;
      unshared = Unshared-save j j' db.jobs hj ej inv.unshared;
      keyed = Keyed-save job_key j' db.jobs inv.keyed;
    }

    -- The credits fall by what the message adds to the spent ones.
    pub done-Conserves :
        b'.credits +ℤ cost_in PaymentStatus.deducted m.user_id m' ≡ b.credits → Conserves db done
    done-Conserves paid u x hx =
        let moved = total_in-save m m' db.messages hm eu ec PaymentStatus.deducted u in
        let before : cost_in PaymentStatus.deducted u m ≡ pos 0 =
          cost_in_other PaymentStatus.deducted u m (rw er (λ e. cc)) in
        elim (Bool-cases (m.user_id == u)) [
          | inl e ↦
              let eu' : m.user_id ≡ u = ==→eq m.user_id u e in
              let same : x ≡ b = ground arith in
              (
                b',
                ground (arith, find-save_self balance_key b' b db.balances),
                exchange_eq _ _ _ _ _ _ moved before (rw (same, ← eu') paid),
              )
          | inr n ↦
              let other = cost_in_elsewhere PaymentStatus.deducted u m' (rw eu n) in
              (
                x,
                ground (arith, find-save_ne balance_key u b' db.balances),
                exchange_eq _ _ _ _ _ _ moved before (rw other (omega int_laws)),
              )
        ]
