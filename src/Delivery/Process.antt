-- ===== src/Delivery/Process.antt =====
-- `process` of src/app/usecases/dispatch.py from end to end: a worker claims a job, calls the
-- provider and records what it answers, with no other transaction between the two.
use abrio.Prelude.{
  ℕ, ◌≤◌, ◌≡◌, refl, sym, subst, ap, ◌∙◌, inl, inr, false, true, Option, none, some, Text, arith,
  length, ltb, take, Bool-cases, List, ==-refl,
}
use abrio.Prelude.Int.{pos, ◌≤ℤ◌, ◌<ℤ◌}
use abrio.Domain.Enums.{MessageStatus, PaymentStatus, DispatchJobStatus, ProviderOutcome}
use abrio.Database.Table.{find, find_key, save, find-save_self, All-find}
use abrio.Database.Rows.{Balance, Message, DispatchJob, Database, balance_key, message_key, job_key}
use abrio.Database.Session.{Result, ok}
use abrio.Repositories.Balances
use abrio.Repositories.Jobs
use abrio.Repositories.Messages
use abrio.Metrics.{World, record_delivery_outcome, record_dispatch_retry}
use abrio.UseCases.Dispatch.{
  Claim, Clock, DispatchSettings, ProviderResult, Recorded, SmsProvider, claim, claim_job,
  claim_message, decide_claim, hand_out, claim_for_delivery, complete, context_of, error_or,
  express_deadline_exceeded, finish_record, holds_lease, is_claimable, is_terminal, permanent_error,
  permanently_fail, process, record_job, record_metric, record_outcome, record_permanent,
  record_result, record_success, record_tx, metric_of,
}
use abrio.Ledger.Consistent.{Inv, IsSound}
use abrio.Ledger.Accounts.{settle_ok, release_credits_ok, settled, released, with_balance}
use abrio.Ledger.Transition.{cost-le-reserved}
use abrio.Ledger.Delivery.{reserved_of_open}
use abrio.Delivery.Leases.{find-save_found}

finish_record-db : (now : ℕ) (o : Option Recorded) (w : World) → (finish_record now o w).db ≡ w.db
unfolding record_metric record_delivery_outcome record_dispatch_retry
finish_record-db now none w = refl
finish_record-db now (some r) w = elim (Bool-cases r.retry_scheduled) [
  | inl e ↦ rw e
  | inr e ↦ rw e
]

find-save_at :
    {A : Type 0} (key : A → ℕ) (k : ℕ) (old r : A) (rs : List A)
    → find key k rs ≡ some old
    → key r ≡ k
    → find key k (save key r rs) ≡ some r
find-save_at key k old r rs h e =
    subst (λ i. find key i (save key r rs) ≡ some r) e
      (find-save_self key r old rs (subst (λ i. find key i rs ≡ some old) (sym e) h))

-- A job that a worker may take, with its message and the balance that pays for it.
pub record IsReadyToSend (s : DispatchSettings) (c : Clock) (job_id : ℕ) (db : Database)
    (j : DispatchJob) (m : Message) (b : Balance) : Type 0 where
  pub job : find job_key job_id db.jobs ≡ some j
  pub message : find message_key j.message_id db.messages ≡ some m
  pub balance : find balance_key m.user_id db.balances ≡ some b
  pub running : is_terminal j.status ≡ false
  pub claimable : is_claimable s c.checked_at j ≡ true
  pub timely : express_deadline_exceeded s c.deadline_at 0 m ≡ false

-- What a worker's process answers and leaves: no exception, and the three rows.
abbrev pub Leaves : ℕ → ℕ → ℕ → DispatchJob → Message → Balance → Result (Unit {0}) × World → Type 0
Leaves job_id message_id user_id j m b x =
    (x.0 ≡ ok tt)
    × (find job_key job_id x.1.db.jobs ≡ some j)
    × (find message_key message_id x.1.db.messages ≡ some m)
    × (find balance_key user_id x.1.db.balances ≡ some b)

module _ (s : DispatchSettings) (c c' : Clock) (jitter job_id worker_id : ℕ) (w : World)
    (inv : Inv w.db) (j : DispatchJob) (m : Message) (b : Balance)
    (ready : IsReadyToSend s c job_id w.db j m b) where
  reserved : m.payment_status ≡ PaymentStatus.reserved
  reserved =
      let (m', hm', ag) = inv.linked job_id j ready.job in
      let same : m' ≡ m = ground (arith, hm', ready.message) in
      ap (λ x. x.payment_status) (sym same)
      ∙ reserved_of_open j.status m'.payment_status ready.running ag

  abbrev held : DispatchJob
  held = Jobs.mark_dispatching c.written_at worker_id j

  abbrev sending : Message
  sending = Messages.mark_dispatching m

  -- The database between the two transactions.
  abbrev between : Database
  between = record (w.db) {
    messages = save message_key sending w.db.messages;
    jobs = save job_key held w.db.jobs;
  }

  claim-hands_out : claim s c job_id worker_id w.db ≡ ok (Claim.claimed (context_of m), between)
  unfolding claim claim_job claim_message decide_claim hand_out Jobs.get_for_update
      Messages.get_for_update
  claim-hands_out = ground (arith, reserved)

  taken :
      claim_for_delivery s c job_id worker_id w
      ≡ (ok (some (context_of m)), record w { db = between })
  unfolding claim_for_delivery
  taken = ground (arith, claim-hands_out)

  process-records :
      (send : SmsProvider) (result : ProviderResult)
      → send m.id m.recipient m.body ≡ ok result
      → process s send c c' jitter job_id worker_id w
        ≡ record_outcome s c' jitter job_id worker_id result (record w { db = between })
  unfolding process
  process-records send result h = ground (arith, taken, h)

  own_id : m.id ≡ j.message_id
  own_id = find_key message_key j.message_id w.db.messages m ready.message

  held_job : find job_key job_id between.jobs ≡ some held
  unfolding Jobs.mark_dispatching
  held_job = find-save_found job_id j held w.db.jobs ready.job refl

  sending_message : find message_key j.message_id between.messages ≡ some sending
  unfolding Messages.mark_dispatching
  sending_message =
      subst (λ k. find message_key k between.messages ≡ some sending) own_id
        (find-save_self message_key sending m w.db.messages
          (subst (λ k. find message_key k w.db.messages ≡ some m) (sym own_id) ready.message))

  -- What pays for the message.
  affordable : (pos 0 <ℤ m.cost) × IsSound b × (m.cost ≤ℤ b.reserved_credits)
  affordable = (
    All-find message_key (λ x. pos 0 <ℤ x.cost) j.message_id w.db.messages m inv.priced
        ready.message,
    (inv.funded m.user_id b ready.balance).0,
    cost-le-reserved w.db j.message_id m b inv ready.message reserved ready.balance,
  )

  -- The three rows that the second transaction writes.
  abbrev after : DispatchJob → Message → Balance → Database
  after j' m' b' = record (with_balance b' between) {
    messages = save message_key m' between.messages;
    jobs = save job_key j' between.jobs;
  }

  record-Leaves :
      (send : SmsProvider) (result : ProviderResult) (j' : DispatchJob) (m' : Message)
      (b' : Balance) (o : Recorded)
      → send m.id m.recipient m.body ≡ ok result
      → j'.id ≡ j.id
      → m'.id ≡ m.id
      → b'.user_id ≡ b.user_id
      → record_tx s c' jitter job_id worker_id result between ≡ ok (some o, after j' m' b')
      → Leaves job_id m.id m.user_id j' m' b' (process s send c c' jitter job_id worker_id w)
  unfolding record_outcome Jobs.mark_dispatching Messages.mark_dispatching
  record-Leaves send result j' m' b' o h ej em eb done =
      let x : World = record w { db = after j' m' b' } in
      let step : record_outcome s c' jitter job_id worker_id result (record w { db = between })
          ≡ (ok tt, finish_record c'.measured_at (some o) x) =
        ground (arith, done) in
      let own : (finish_record c'.measured_at (some o) x).db ≡ after j' m' b' =
        finish_record-db c'.measured_at (some o) x in
      let ub : b.user_id ≡ m.user_id =
        find_key balance_key m.user_id w.db.balances b ready.balance in
      rw (process-records send result h ∙ step) (
        refl,
        ap (λ d. find job_key job_id d.jobs) own
            ∙ find-save_found job_id held j' between.jobs held_job ej,
        ap (λ d. find message_key m.id d.messages) own
            ∙ find-save_at message_key m.id sending m' between.messages
                (subst (λ k. find message_key k between.messages ≡ some sending) (sym own_id)
                  sending_message)
                em,
        ap (λ d. find balance_key m.user_id d.balances) own
            ∙ find-save_at balance_key m.user_id b b' w.db.balances ready.balance (eb ∙ ub),
      )

  -- The worker still holds the job, and the payment is there.
  lease : holds_lease worker_id held ≡ true
  unfolding Jobs.mark_dispatching
  lease = ground (arith, ==-refl worker_id)

  recorded_as :
      (result : ProviderResult)
      → record_tx s c' jitter job_id worker_id result between
        ≡ record_result s c' jitter result result.outcome held sending between
  unfolding record_tx record_job Jobs.get_for_update Messages.get_for_update Jobs.mark_dispatching
  recorded_as result = ground (arith, held_job, sending_message, lease)

  paid :
      Balances.settle m.user_id m.cost between
      ≡ ok (settled b m.cost, with_balance (settled b m.cost) between)
  paid = settle_ok b m.cost affordable.1 affordable.0 affordable.2 m.user_id between ready.balance

  freed :
      Balances.release_credits m.user_id m.cost between
      ≡ ok (released b m.cost, with_balance (released b m.cost) between)
  freed =
      release_credits_ok b m.cost affordable.1 affordable.0 affordable.2 m.user_id between
        ready.balance

  success :
      (p : Text) (e : Option Text)
      → length p ≤ 255
      → record_tx s c' jitter job_id worker_id
          (record { outcome = ProviderOutcome.success; provider_message_id = some p; error = e })
          between
        ≡ ok (
          some (record {
            metric = metric_of sending ProviderOutcome.success;
            retry_scheduled = false;
          }),
          after
              (record j {
                status = DispatchJobStatus.completed;
                locked_at = none;
                locked_by = none;
                provider_message_id = some p;
                completed_at = some c'.written_at;
                last_error = none;
              })
              (record m { status = MessageStatus.sent; payment_status = PaymentStatus.deducted })
              (settled b m.cost),
        )
  unfolding record_result record_success complete Messages.mark_sent Jobs.mark_completed
      Jobs.mark_dispatching Messages.mark_dispatching
  success p e short =
      let fits : ltb 255 (length p) ≡ false = ground (arith, short) in
      recorded_as
        (record { outcome = ProviderOutcome.success; provider_message_id = some p; error = e })
      ∙ ground (arith, paid, fits)

  failure :
      (p e : Option Text)
      → record_tx s c' jitter job_id worker_id
          (record {
            outcome = ProviderOutcome.permanent_failure;
            provider_message_id = p;
            error = e;
          })
          between
        ≡ ok (
          some (record {
            metric = metric_of sending ProviderOutcome.permanent_failure;
            retry_scheduled = false;
          }),
          after
              (record j {
                status = DispatchJobStatus.failed;
                locked_at = none;
                locked_by = none;
                completed_at = some c'.written_at;
                last_error = some (take 2000 (error_or e permanent_error));
              })
              (record m {
                status = MessageStatus.permanent_failed;
                payment_status = PaymentStatus.refunded;
              })
              (released b m.cost),
        )
  unfolding record_result record_permanent permanently_fail Messages.mark_permanent_failure
      Jobs.mark_failed Jobs.mark_dispatching Messages.mark_dispatching
  failure p e =
      recorded_as
        (record { outcome = ProviderOutcome.permanent_failure; provider_message_id = p; error = e })
      ∙ ground (arith, freed)

  -- If the provider calls the sending of a claimable job's message a success, under an id of at
  -- most 255 characters, a worker's process on a consistent database ends without an exception:
  -- the job is completed under that id and nobody's, the message is sent and deducted, and its
  -- cost has left the credits and the reserved credits of its user.
  pub process-sends :
      (send : SmsProvider) (p : Text) (e : Option Text)
      → send m.id m.recipient m.body
        ≡ ok (record { outcome = ProviderOutcome.success; provider_message_id = some p; error = e })
      → length p ≤ 255
      → Leaves job_id m.id m.user_id
          (record j {
            status = DispatchJobStatus.completed;
            locked_at = none;
            locked_by = none;
            provider_message_id = some p;
            completed_at = some c'.written_at;
            last_error = none;
          })
          (record m { status = MessageStatus.sent; payment_status = PaymentStatus.deducted })
          (settled b m.cost)
          (process s send c c' jitter job_id worker_id w)
  process-sends send p e h short =
      record-Leaves send
        (record { outcome = ProviderOutcome.success; provider_message_id = some p; error = e })
        (record j {
          status = DispatchJobStatus.completed;
          locked_at = none;
          locked_by = none;
          provider_message_id = some p;
          completed_at = some c'.written_at;
          last_error = none;
        })
        (record m { status = MessageStatus.sent; payment_status = PaymentStatus.deducted })
        (settled b m.cost)
        (record { metric = metric_of sending ProviderOutcome.success; retry_scheduled = false }) h
        refl refl refl (success p e short)

  -- If the provider calls the sending of a claimable job's message a permanent failure, a worker's
  -- process on a consistent database ends without an exception: the job is failed and nobody's,
  -- the message is failed for good and refunded, and its cost has left the reserved credits of its
  -- user alone.
  pub process-refuses :
      (send : SmsProvider) (p e : Option Text)
      → send m.id m.recipient m.body
        ≡ ok (record {
          outcome = ProviderOutcome.permanent_failure;
          provider_message_id = p;
          error = e;
        })
      → Leaves job_id m.id m.user_id
          (record j {
            status = DispatchJobStatus.failed;
            locked_at = none;
            locked_by = none;
            completed_at = some c'.written_at;
            last_error = some (take 2000 (error_or e permanent_error));
          })
          (record m {
            status = MessageStatus.permanent_failed;
            payment_status = PaymentStatus.refunded;
          })
          (released b m.cost)
          (process s send c c' jitter job_id worker_id w)
  process-refuses send p e h =
      record-Leaves send
        (record { outcome = ProviderOutcome.permanent_failure; provider_message_id = p; error = e })
        (record j {
          status = DispatchJobStatus.failed;
          locked_at = none;
          locked_by = none;
          completed_at = some c'.written_at;
          last_error = some (take 2000 (error_or e permanent_error));
        })
        (record m {
          status = MessageStatus.permanent_failed;
          payment_status = PaymentStatus.refunded;
        })
        (released b m.cost)
        (record {
          metric = metric_of sending ProviderOutcome.permanent_failure;
          retry_scheduled = false;
        })
        h refl refl refl (failure p e)
