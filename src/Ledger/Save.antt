-- ===== src/Ledger/Save.antt =====
-- The invariant when a job, its message and a balance are saved.
use abrio.Prelude.{
  ℕ, ◌≡◌, ◌≢◌, ◌⊎◌, inl, inr, true, false, some, List, ◌==◌, is_some, [], ◌∷◌, Bool-cases, ==→eq,
  arith,
}
use abrio.Prelude.Int.{pos, ◌+ℤ◌, ◌-ℤ◌, ◌<ℤ◌, int_laws}
use abrio.Domain.Enums.{PaymentStatus, payment_eq_refl, payment_eq→eq}
use abrio.Database.Table.{
  find, save, find-save_self, find-save_ne, total-save, is_some-find-save, All-save, All-find,
}
use abrio.Database.Rows.{Balance, Message, DispatchJob, balance_key, message_key, job_key}
use abrio.Ledger.Consistent.{
  Funded, Priced, Backed, Linked, Unshared, IsSound, agrees, total_in, cost_in,
}

module _ (j j' : DispatchJob) (js : List DispatchJob) (hj : find job_key j'.id js ≡ some j) where
  -- Every job of the new table is the saved one, or one of another id that was there before.
  find-save_cases :
      (k : ℕ) (x : DispatchJob)
      → find job_key k (save job_key j' js) ≡ some x
      → ((k ≡ j'.id) × (x ≡ j')) ⊎ ((k ≢ j'.id) × (find job_key k js ≡ some x))
  find-save_cases k x hx = elim (Bool-cases (k == j'.id)) [
    | inl e ↦ inl (==→eq k j'.id e, ground (arith, find-save_self job_key j' j js))
    | inr n ↦ inr (ground arith, ground (arith, find-save_ne job_key k j' js))
  ]

  -- Saving a job under its own id and message shares no message.
  pub Unshared-save : j'.message_id ≡ j.message_id → Unshared js → Unshared (save job_key j' js)
  Unshared-save em un k l x y hx hy e =
      ground
        (arith, find-save_cases k x hx, find-save_cases l y hy, un k l x y, un k l x j, un k l j y)

  -- A job saved with its message, in statuses that agree, leaves every other pair alone.
  pub Linked-save :
      (m m' : Message) (ms : List Message)
      → find message_key m'.id ms ≡ some m
      → m'.id ≡ j'.message_id
      → j'.message_id ≡ j.message_id
      → agrees j'.status m'.payment_status ≡ true
      → Unshared js
      → Linked ms js
      → Linked (save message_key m' ms) (save job_key j' js)
  Linked-save m m' ms hm ei em ag un lk k x hx = elim (find-save_cases k x hx) [
    | inl (ek, ex) ↦ (m', ground (arith, find-save_self message_key m' m ms), ground arith)
    | inr (nk, old) ↦
        let (w, hw, aw) = lk k x old in
        (w, ground (arith, find-save_ne message_key x.message_id m' ms, un k j'.id x j), aw)
  ]

pub cost_in_here :
    (p : PaymentStatus) (u : ℕ) (m : Message)
    → (m.user_id == u) ≡ true
    → m.payment_status ≡ p
    → cost_in p u m ≡ m.cost
cost_in_here p u m e h = rw (e, h, payment_eq_refl p)

pub cost_in_elsewhere :
    (p : PaymentStatus) (u : ℕ) (m : Message) → (m.user_id == u) ≡ false → cost_in p u m ≡ pos 0
cost_in_elsewhere p u m e = rw e

pub cost_in_other :
    (p : PaymentStatus) (u : ℕ) (m : Message) → m.payment_status ≢ p → cost_in p u m ≡ pos 0
cost_in_other p u m n = ground (arith, payment_eq→eq m.payment_status p)

module _ (m m' : Message) (ms : List Message) (hm : find message_key m'.id ms ≡ some m)
    (eu : m'.user_id ≡ m.user_id) (ec : m'.cost ≡ m.cost) where
  -- The sum over one status moves by the saved message alone.
  pub total_in-save :
      (p : PaymentStatus) (u : ℕ)
      → total_in p u (save message_key m' ms) +ℤ cost_in p u m ≡ total_in p u ms +ℤ cost_in p u m'
  total_in-save p u = total-save message_key (cost_in p u) m' m ms hm

  pub total_in-save_same :
      (p : PaymentStatus) (u : ℕ)
      → m'.payment_status ≡ m.payment_status
      → total_in p u (save message_key m' ms) ≡ total_in p u ms
  total_in-save_same p u ep =
      let same : cost_in p u m' ≡ cost_in p u m = rw (eu, ec, ep) in
      grind (int_laws, total_in-save p u)

  pub Priced-save : Priced ms → Priced (save message_key m' ms)
  Priced-save h =
      All-save message_key (λ x. pos 0 <ℤ x.cost) m' ms h
        (rw ec (All-find message_key (λ x. pos 0 <ℤ x.cost) m'.id ms m h hm))

  pub Backed-save : (bs : List Balance) → Backed bs ms → Backed bs (save message_key m' ms)
  Backed-save bs h =
      All-save message_key (λ x. is_some (find balance_key x.user_id bs) ≡ true) m' ms h
        (rw eu (
          All-find message_key (λ x. is_some (find balance_key x.user_id bs) ≡ true) m'.id ms m h
            hm))

  -- A message that keeps its payment status needs no money.
  pub Funded-save_same :
      (bs : List Balance)
      → m'.payment_status ≡ m.payment_status
      → Funded bs ms
      → Funded bs (save message_key m' ms)
  Funded-save_same bs ep h u b f =
      ((h u b f).0, rw (total_in-save_same PaymentStatus.reserved u ep) (h u b f).1)

  -- A message that leaves the reserved ones takes its cost out of the reserved credits.
  pub Funded-save_done :
      (b b' : Balance) (bs : List Balance)
      → m.payment_status ≡ PaymentStatus.reserved
      → m'.payment_status ≢ PaymentStatus.reserved
      → b'.user_id ≡ m.user_id
      → find balance_key m.user_id bs ≡ some b
      → IsSound b'
      → b'.reserved_credits ≡ b.reserved_credits -ℤ m.cost
      → Funded bs ms
      → Funded (save balance_key b' bs) (save message_key m' ms)
  Funded-save_done b b' bs er en ub hb s eb h u x hx = elim (Bool-cases (m.user_id == u)) [
    | inl e ↦
        let eu' : m.user_id ≡ u = ==→eq m.user_id u e in
        let ex : x ≡ b' = ground (arith, find-save_self balance_key b' b bs) in
        let moved = total_in-save PaymentStatus.reserved u in
        let here = cost_in_here PaymentStatus.reserved u m e er in
        let gone = cost_in_other PaymentStatus.reserved u m' en in
        let was = (h m.user_id b hb).1 in
        (rw ex s, rw (ex, eb, was, eu') (grind (int_laws, moved, here, gone)))
    | inr n ↦
        let old : find balance_key u bs ≡ some x =
          ground (arith, find-save_ne balance_key u b' bs) in
        let moved = total_in-save PaymentStatus.reserved u in
        let here = cost_in_elsewhere PaymentStatus.reserved u m n in
        let gone = cost_in_other PaymentStatus.reserved u m' en in
        ((h u x old).0, rw ((h u x old).1) (grind (int_laws, moved, here, gone)))
  ]

-- A new balance row backs what the old one backed.
pub Backed-save_balance :
    (b' : Balance) (bs : List Balance) (ms : List Message)
    → Backed bs ms
    → Backed (save balance_key b' bs) ms
Backed-save_balance b' bs [] h = tt
Backed-save_balance b' bs (m ∷ ms) h =
    (is_some-find-save balance_key m.user_id b' bs h.0, Backed-save_balance b' bs ms h.1)
