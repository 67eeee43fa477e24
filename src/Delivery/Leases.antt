-- ===== src/Delivery/Leases.antt =====
-- The leases of src/app/usecases/dispatch.py: which worker may send a job.
use abrio.Prelude.{
  List, ℕ, ◌+◌, ◌*◌, ◌<◌, ◌≡◌, refl, sym, subst, ap, ◌∙◌, inl, inr, true, not, ◌||◌, Option, none,
  some, lt→ltb, arith,
}
use abrio.Domain.Enums.{PaymentStatus, DispatchJobStatus, ProviderOutcome, payment_eq}
use abrio.Domain.Errors.{Error}
use abrio.Database.Table.{find, find_key, save, find-save_self}
use abrio.Database.Rows.{Message, DispatchJob, Database, message_key, job_key}
use abrio.Database.Session.{
  >>=-eq-ok, ok, raise_if-ok, or_raise-ok, branch-ok, pure, ◌>>◌, ◌>>=◌, Tx,
}
use abrio.Repositories.Jobs
use abrio.Repositories.Jobs.{second}
use abrio.Repositories.Messages
use abrio.UseCases.Dispatch.{
  DispatchSettings, Clock, Claim, DeliveryContext, DeliveryMetric, claim, claim_job, claim_message,
  decide_claim, hand_out, permanently_fail, express_deadline_exceeded, metric_of, is_claimable,
  is_fresh, is_terminal, deadline_error,
}

-- While the lease of the worker that sends a job is fresh, nobody else is given the job, and the
-- attempt changes nothing.
pub claim-leased :
    (s : DispatchSettings) (c : Clock) (job_id worker_id : ℕ) (db : Database) (j : DispatchJob)
    → find job_key job_id db.jobs ≡ some j
    → j.status ≡ DispatchJobStatus.dispatching
    → is_fresh j.locked_at c.checked_at s.worker_lease_seconds ≡ true
    → claim s c job_id worker_id db ≡ ok (Claim.nothing, db)
unfolding claim claim_job Jobs.get_for_update is_claimable
claim-leased s c job_id worker_id db j hj st fresh = rw (hj, st, fresh)

-- A job that is over is handed to nobody, and the attempt changes nothing.
pub claim-over :
    (s : DispatchSettings) (c : Clock) (job_id worker_id : ℕ) (db : Database) (j : DispatchJob)
    → find job_key job_id db.jobs ≡ some j
    → is_terminal j.status ≡ true
    → claim s c job_id worker_id db ≡ ok (Claim.nothing, db)
unfolding claim claim_job Jobs.get_for_update
claim-over s c job_id worker_id db j hj over = rw (hj, over)

not_claimed :
    (m : Tx (Unit {0})) (x : DeliveryMetric) (d : DeliveryContext) (db db' : Database)
    → (m >> pure (Claim.expired x)) db ≡ ok (Claim.claimed d, db')
    → ⊥
not_claimed m x d db db' h =
    let (u, mid, first, last) = >>=-eq-ok m (λ _. pure (Claim.expired x)) db h in cc

decide_claim_inv :
    (s : DispatchSettings) (c : Clock) (w : ℕ) (j : DispatchJob) (m : Message) (db db' : Database)
    (d : DeliveryContext)
    → decide_claim s c w j m db ≡ ok (Claim.claimed d, db')
    → db'.jobs ≡ save job_key (Jobs.mark_dispatching c.written_at w j) db.jobs
unfolding decide_claim hand_out
decide_claim_inv s c w j m db db' d h =
    let late = metric_of m ProviderOutcome.permanent_failure in
    elim (branch-ok db (express_deadline_exceeded s c.deadline_at 0 m)
      (permanently_fail j m deadline_error c.written_at >> pure (Claim.expired late))
      (hand_out c w j m) h) [
        | inl (e, x) ↦
            absurd (not_claimed (permanently_fail j m deadline_error c.written_at) late d db db' x)
        | inr (e, x) ↦ ground arith
      ]

claim_job_inv :
    (s : DispatchSettings) (c : Clock) (w : ℕ) (j : DispatchJob) (db db' : Database)
    (d : DeliveryContext)
    → claim_job s c w (some j) db ≡ ok (Claim.claimed d, db')
    → db'.jobs ≡ save job_key (Jobs.mark_dispatching c.written_at w j) db.jobs
unfolding claim_job claim_message Messages.get_for_update
claim_job_inv s c w j db db' d h =
    elim (branch-ok db (is_terminal j.status || not (is_claimable s c.checked_at j))
      (pure Claim.nothing) (Messages.get_for_update j.message_id >>= claim_message s c w j) h) [
        | inl (e, x) ↦ cc
        | inr (e, x) ↦
            let (m, hm, y) =
              or_raise-ok db (find message_key j.message_id db.messages)
                (Error.message_not_found j.message_id) (claim_message s c w j) x in
            decide_claim_inv s c w j m db db' d
              (raise_if-ok db (not (payment_eq m.payment_status PaymentStatus.reserved))
                Error.payment_not_reserved (decide_claim s c w j m) y).1
      ]

claim_found :
    (s : DispatchSettings) (c : Clock) (w : ℕ) (o : Option DispatchJob) (db db' : Database)
    (d : DeliveryContext)
    → claim_job s c w o db ≡ ok (Claim.claimed d, db')
    → (j : DispatchJob) × (o ≡ some j)
      × (db'.jobs ≡ save job_key (Jobs.mark_dispatching c.written_at w j) db.jobs)
unfolding claim_job
claim_found s c w none db db' d h = cc
claim_found s c w (some j) db db' d h = (j, refl, claim_job_inv s c w j db db' d h)

pub find-save_found :
    (i : ℕ) (j j' : DispatchJob) (js : List DispatchJob)
    → find job_key i js ≡ some j
    → j'.id ≡ j.id
    → find job_key i (save job_key j' js) ≡ some j'
find-save_found i j j' js h e =
    let own : j'.id ≡ i = e ∙ find_key job_key i js j h in
    subst (λ k. find job_key k (save job_key j' js) ≡ some j') own
      (find-save_self job_key j' j js (subst (λ k. find job_key k js ≡ some j) (sym own) h))

-- A worker that is handed a job gets the job's row marked as its own.
claim_inv :
    (s : DispatchSettings) (c : Clock) (i w : ℕ) (db db' : Database) (d : DeliveryContext)
    → claim s c i w db ≡ ok (Claim.claimed d, db')
    → (j : DispatchJob) × (find job_key i db.jobs ≡ some j)
      × (find job_key i db'.jobs ≡ some (Jobs.mark_dispatching c.written_at w j))
unfolding claim Jobs.get_for_update Jobs.mark_dispatching
claim_inv s c i w db db' d h =
    let (j, hj, e) = claim_found s c w (find job_key i db.jobs) db db' d h in
    (
      j,
      hj,
      ap (find job_key i) e
          ∙ find-save_found i j (Jobs.mark_dispatching c.written_at w j) db.jobs hj refl,
    )

-- After a worker is handed a job, no worker is handed the job again on the database that is left,
-- and nothing is written, as long as the clock reads less than the hand-out plus the lease.
pub claim-claim :
    (s : DispatchSettings) (c c' : Clock) (job_id a b : ℕ) (db db' : Database) (d : DeliveryContext)
    → claim s c job_id a db ≡ ok (Claim.claimed d, db')
    → c'.checked_at < c.written_at + s.worker_lease_seconds * second
    → claim s c' job_id b db' ≡ ok (Claim.nothing, db')
unfolding Jobs.mark_dispatching
claim-claim s c c' i a b db db' d h before =
    let (j, hj, hj') = claim_inv s c i a db db' d h in
    claim-leased s c' i b db' (Jobs.mark_dispatching c.written_at a j) hj' refl
      (lt→ltb c'.checked_at (c.written_at + s.worker_lease_seconds * second) before)
