-- ===== src/Examples/Deliveries.antt =====
-- A worker's process from end to end, on one published job.
use abrio.Prelude.{
  ℕ, ◌≡◌, refl, subst, inl, inr, [], some, none, codes, Bool-cases, ◌==◌, arith, List, true, sym,
  ◌∙◌, ==→eq, if◌then◌else◌, false,
}
use abrio.Prelude.Int.{pos, ◌+ℤ◌}
use abrio.Domain.Enums.{MessageStatus, PaymentStatus, DispatchJobStatus, ProviderOutcome}
use abrio.Database.Table.{find}
use abrio.Database.Rows.{Balance, Message, DispatchJob, Database, balance_key, message_key, job_key}
use abrio.Database.Session.{ok}
use abrio.Metrics.{World}
use abrio.UseCases.Dispatch.{ProviderResult, is_claimable, express_deadline_exceeded, process}
use abrio.Ledger.Accounts.{settled, released}
use abrio.Ledger.Consistent.{Inv, IsSound, agrees, total_in}
use abrio.Delivery.Process.{IsReadyToSend, Leaves, process-sends, process-refuses}
use abrio.Config.{defaults}
use abrio.Prelude.Texts.{same}
use abrio.Providers.{build_provider, build_provider-process}
use abrio.Examples.Data.{account, message, published_job, with, settings, clock, delivered}

-- The text asks the mock provider to refuse it.
abbrev marked : MessageStatus → PaymentStatus → Message
marked status payment = record (message status payment) { body = codes "[FAIL_PERMANENT]" }

abbrev published_db : Database
published_db =
    with (account (pos 1000) (pos 50)) (marked MessageStatus.queued PaymentStatus.reserved)
      published_job

account-IsSound : IsSound (account (pos 1000) (pos 50))
account-IsSound = record { nonneg = omega arith; covered = omega arith; bounded = omega arith }

published_funded :
    (u : ℕ) (b : Balance)
    → find balance_key u published_db.balances ≡ some b
    → IsSound b × (b.reserved_credits ≡ total_in PaymentStatus.reserved u published_db.messages)
unfolding ◌+ℤ◌
published_funded u b h = elim (Bool-cases (1 == u)) [
  | inl e ↦
      let same : account (pos 1000) (pos 50) ≡ b = ground arith in
      subst
        (λ x.
          IsSound x
          × (x.reserved_credits ≡ total_in PaymentStatus.reserved u published_db.messages))
        same (account-IsSound, rw e refl)
  | inr n ↦ absurd (ground arith)
]

only_job :
    (k : ℕ) (j : DispatchJob)
    → find job_key k published_db.jobs ≡ some j
    → ◌≡◌ {A = ℕ} 200 k × (published_job ≡ j)
only_job k j h = elim (Bool-cases (200 == k)) [
  | inl e ↦ (==→eq 200 k e, ground arith)
  | inr n ↦ absurd (ground arith)
]

abbrev AgreesIn : List Message → DispatchJob → Type 0
AgreesIn ms j =
    (m : Message) × (find message_key j.message_id ms ≡ some m)
    × (agrees j.status m.payment_status ≡ true)

published-Inv : Inv published_db
published-Inv = record {
  funded = published_funded;
  priced = (omega arith, tt);
  backed = (refl, tt);
  linked = λ k j h.
      subst (AgreesIn published_db.messages) (only_job k j h).1
        (marked MessageStatus.queued PaymentStatus.reserved, refl, refl);
  unshared = λ k l i j h h' e. sym (only_job k i h).0 ∙ (only_job l j h').0;
  keyed = (refl, tt);
}

abbrev Ready : Type 0
Ready =
    IsReadyToSend settings (clock 3000) 200 published_db published_job
      (marked MessageStatus.queued PaymentStatus.reserved) (account (pos 1000) (pos 50))

published-IsReadyToSend : Ready
unfolding is_claimable express_deadline_exceeded
published-IsReadyToSend = record {
  job = refl;
  message = refl;
  balance = refl;
  running = refl;
  claimable = refl;
  timely = refl;
}

abbrev before : World
before = record { db = published_db; metrics = [] }

process-sends_example :
    Leaves 200 100 1
      (record published_job {
        status = DispatchJobStatus.completed;
        locked_at = none;
        locked_by = none;
        provider_message_id = some (codes "p-1");
        completed_at = some 5002;
        last_error = none;
      })
      (marked MessageStatus.sent PaymentStatus.deducted)
      (settled (account (pos 1000) (pos 50)) (pos 50))
      (process settings (λ i r b. ok delivered) (clock 3000) (clock 5000) 0 200 9 before)
process-sends_example =
    process-sends settings (clock 3000) (clock 5000) 0 200 9 before published-Inv published_job
      (marked MessageStatus.queued PaymentStatus.reserved) (account (pos 1000) (pos 50))
      published-IsReadyToSend (λ i r b. ok delivered) (codes "p-1") none refl (omega arith)

abbrev unknown : ProviderResult
unknown = record {
  outcome = ProviderOutcome.permanent_failure;
  provider_message_id = none;
  error = some (codes "unknown number");
}

process-refuses_example :
    Leaves 200 100 1
      (record published_job {
        status = DispatchJobStatus.failed;
        locked_at = none;
        locked_by = none;
        completed_at = some 5002;
        last_error = some (codes "unknown number");
      })
      (marked MessageStatus.permanent_failed PaymentStatus.refunded)
      (released (account (pos 1000) (pos 50)) (pos 50))
      (process settings (λ i r b. ok unknown) (clock 3000) (clock 5000) 0 200 9 before)
process-refuses_example =
    process-refuses settings (clock 3000) (clock 5000) 0 200 9 before published-Inv published_job
      (marked MessageStatus.queued PaymentStatus.reserved) (account (pos 1000) (pos 50))
      published-IsReadyToSend (λ i r b. ok unknown) none (some (codes "unknown number")) refl

-- The defaults choose the mock.
build_provider-process_example :
    let mock = same defaults.sms_provider (codes "mock") in
    Leaves 200 100 1
      (record published_job {
        status = if mock then DispatchJobStatus.failed else DispatchJobStatus.completed;
        locked_at = none;
        locked_by = none;
        provider_message_id = if mock then none else some (codes "dummy-7");
        completed_at = some 5002;
        last_error = if mock then some (codes "mock: forced permanent failure") else none;
      })
      (record (marked MessageStatus.queued PaymentStatus.reserved) {
        status = if mock then MessageStatus.permanent_failed else MessageStatus.sent;
        payment_status = if mock then PaymentStatus.refunded else PaymentStatus.deducted;
      })
      (if mock
        then released (account (pos 1000) (pos 50)) (pos 50)
        else settled (account (pos 1000) (pos 50)) (pos 50))
      (process settings
        (build_provider defaults false (λ i. codes "7"))
        (clock 3000)
        (clock 5000)
        0
        200
        9
        before)
build_provider-process_example =
    build_provider-process defaults false (λ i. codes "7") settings (clock 3000) (clock 5000) 0 200
      9 before published-Inv published_job (marked MessageStatus.queued PaymentStatus.reserved)
      (account (pos 1000) (pos 50)) published-IsReadyToSend refl (omega arith)
