-- ===== src/Ledger/Delivery.antt =====
-- The two transactions of src/app/usecases/dispatch.py on a consistent database.
use abrio.Prelude.{
  ℕ, List, if◌then◌else◌, ◌+◌, ◌≤◌, leb, ltb, length, ◌≡◌, refl, sym, subst, inl, inr, Bool, true,
  false, Option, none, some, is_some, Text, not, ◌||◌, Bool-cases, Option-cases, arith,
}
use abrio.Prelude.Int.{pos, ◌≤ℤ◌, ◌<ℤ◌, int_laws}
use abrio.Domain.Enums.{PaymentStatus, DispatchJobStatus, ProviderOutcome, payment_eq}
use abrio.Database.Table.{find, find_key, All-find}
use abrio.Database.Rows.{Balance, Message, DispatchJob, Database, balance_key, message_key, job_key}
use abrio.Database.Session.{Result, ok, err, Tx, raise_if, ◌>>◌, pure, ◌>>=◌}
use abrio.Domain.Errors.{Error}
use abrio.Repositories.Messages
use abrio.Repositories.Jobs
use abrio.UseCases.Dispatch.{
  DispatchSettings, Clock, ProviderResult, Claim, permanently_fail, hand_out, attempts_error,
  temporary_error, permanent_error, deadline_error, retry_deadline_error, error_or,
  calculate_backoff, express_deadline_exceeded, claim_message, claim_job, claim, complete,
  record_success, record_permanent, record_temporary, record_result, record_job, record_tx,
  schedule_retry, is_terminal, is_claimable, decide_claim, metric_of, holds_lease,
}
use abrio.Ledger.Consistent.{Inv, Conserves, IsSound, agrees}
use abrio.Ledger.Accounts.{
  settle_ok, release_credits_ok, settled, released, settled-IsSound, released-IsSound,
}
use abrio.Ledger.Save.{cost_in_here, cost_in_other}
use abrio.Ledger.Transition.{cost-le-reserved, keep-Inv, keep-Conserves, done-Inv, done-Conserves}

-- The transaction commits, consistently and conserving.
abbrev pub Lands : {A : Type 0} → Database → Result (A × Database) → Type 0
Lands db (ok (a, db')) = Inv db' × Conserves db db'
Lands db (err e) = ⊥

branch-Lands :
    {A : Type 0} (b : Bool) (x y : Result (A × Database)) (db : Database)
    → Lands db x
    → Lands db y
    → Lands db (if b then x else y)
branch-Lands true x y db hx hy = hx
branch-Lands false x y db hx hy = hy

-- A guard that lets the transaction pass.
guard-Lands :
    {A : Type 0} (b : Bool) (e : Error) (m : Tx A) (db : Database)
    → b ≡ false
    → Lands db (m db)
    → Lands db ((raise_if b e >> m) db)
guard-Lands true e m db h l = cc
guard-Lands false e m db h l = l

-- A value handed on after the writes changes nothing.
pure-Lands :
    {A B : Type 0} (r : Result (A × Database)) (x : B) (db : Database)
    → Lands db r
    → Lands db (elim r [ ok (a, db') ↦ ok (x, db') | err e ↦ err e ])
pure-Lands (ok (a, db')) x db h = h
pure-Lands (err e) x db h = h

-- A job found with its message, whose payment is reserved.
module _ (db : Database) (inv : Inv db) (j : DispatchJob) (m : Message)
    (hj : find job_key j.id db.jobs ≡ some j)
    (hm : find message_key j.message_id db.messages ≡ some m)
    (er : m.payment_status ≡ PaymentStatus.reserved) where
  own_id : m.id ≡ j.message_id
  own_id = find_key message_key j.message_id db.messages m hm

  own_row : find message_key m.id db.messages ≡ some m
  own_row = subst (λ k. find message_key k db.messages ≡ some m) (sym own_id) hm

  price : pos 0 <ℤ m.cost
  price = All-find message_key (λ x. pos 0 <ℤ x.cost) j.message_id db.messages m inv.priced hm

  backing : is_some (find balance_key m.user_id db.balances) ≡ true
  backing =
      All-find message_key (λ x. is_some (find balance_key x.user_id db.balances) ≡ true)
        j.message_id db.messages m inv.backed hm

  -- A balance that pays for the message.
  abbrev Pays : Balance → Type 0
  Pays b =
      (find balance_key m.user_id db.balances ≡ some b)
      × IsSound b
      × (m.cost ≤ℤ b.reserved_credits)
      × (b.user_id ≡ m.user_id)

  payer : (b : Balance) × Pays b
  payer = elim (Option-cases (find balance_key m.user_id db.balances)) [
    | inl missing ↦ absurd (ground (arith, backing))
    | inr (b, hb) ↦ (
      b,
      (
        hb,
        (inv.funded m.user_id b hb).0,
        cost-le-reserved db j.message_id m b inv hm er hb,
        find_key balance_key m.user_id db.balances b hb,
      ),
    )
  ]

  permanently_fail-Lands : (error : Text) (now : ℕ) → Lands db (permanently_fail j m error now db)
  unfolding permanently_fail Messages.mark_permanent_failure Jobs.mark_failed
  permanently_fail-Lands error now =
      let (b, (hb, s, le, ub)) = payer in
      let m' = Messages.mark_permanent_failure m in
      let j' = Jobs.mark_failed now error j in
      let b' = released b m.cost in
      rw (release_credits_ok b m.cost s price le m.user_id db hb, Lands)
        (
          done-Inv db inv j j' m m' hj refl own_row own_id refl refl refl b b' er ub hb (λ e. cc)
              (released-IsSound b m.cost s price le) refl,
          done-Conserves db inv j j' m m' hj refl own_row own_id refl refl refl b b' er ub hb
              (rw (cost_in_other PaymentStatus.deducted m.user_id m' (λ e. cc)) (omega int_laws)),
        )

  complete-Lands :
      (c : Clock) (provider_id : Text)
      → length provider_id ≤ 255
      → Lands db (complete c provider_id j m db)
  unfolding complete Messages.mark_sent Jobs.mark_completed
  complete-Lands c provider_id short =
      let (b, (hb, s, le, ub)) = payer in
      let m' = Messages.mark_sent m in
      let j' = Jobs.completed c.written_at provider_id j in
      let fits : ltb 255 (length provider_id) ≡ false = ground (arith, short) in
      let b' = settled b m.cost in
      rw (settle_ok b m.cost s price le m.user_id db hb, fits, Lands)
        (
          done-Inv db inv j j' m m' hj refl own_row own_id refl refl refl b b' er ub hb (λ e. cc)
              (settled-IsSound b m.cost s price le) refl,
          done-Conserves db inv j j' m m' hj refl own_row own_id refl refl refl b b' er ub hb (
              rw (cost_in_here PaymentStatus.deducted m.user_id m' (ground arith) refl)
                (omega int_laws)),
        )

  record_permanent-Lands : (c : Clock) (error : Text) → Lands db (record_permanent c error j m db)
  unfolding record_permanent
  record_permanent-Lands c error = ground (arith, permanently_fail-Lands error c.written_at)

  schedule_retry-Lands :
      (c : Clock) (error : Text) (delay : ℕ) → Lands db (schedule_retry c error delay j m db)
  unfolding schedule_retry Messages.mark_retryable_failure Jobs.mark_delivery_retry
  schedule_retry-Lands c error delay =
      let m' = Messages.mark_retryable_failure m in
      let j' = Jobs.mark_delivery_retry c.written_at error delay j in
      (
        keep-Inv db inv j j' m m' hj refl own_row own_id refl refl refl (sym er),
        keep-Conserves db inv j j' m m' hj refl own_row own_id refl refl refl (sym er),
      )

  record_temporary-Lands :
      (s : DispatchSettings) (c : Clock) (jitter : ℕ) (result : ProviderResult)
      → Lands db (record_temporary s c jitter result j m db)
  unfolding record_temporary
  record_temporary-Lands s c jitter result =
      let delay = calculate_backoff (j.delivery_attempts + 1) jitter in
      branch-Lands (leb s.max_delivery_attempts (j.delivery_attempts + 1))
        (record_permanent c (error_or result.error attempts_error) j m db)
        (if express_deadline_exceeded s c.deadline_at delay m
          then record_permanent c retry_deadline_error j m db
          else schedule_retry c (error_or result.error temporary_error) delay j m db)
        db (record_permanent-Lands c (error_or result.error attempts_error))
        (branch-Lands (express_deadline_exceeded s c.deadline_at delay m)
          (record_permanent c retry_deadline_error j m db)
          (schedule_retry c (error_or result.error temporary_error) delay j m db) db
          (record_permanent-Lands c retry_deadline_error)
          (schedule_retry-Lands c (error_or result.error temporary_error) delay))

  mark_dispatching-Lands : (c : Clock) (worker_id : ℕ) → Lands db (hand_out c worker_id j m db)
  unfolding hand_out Messages.mark_dispatching Jobs.mark_dispatching
  mark_dispatching-Lands c worker_id =
      let m' = Messages.mark_dispatching m in
      let j' = Jobs.mark_dispatching c.written_at worker_id j in
      let ag : agrees DispatchJobStatus.dispatching m.payment_status ≡ true = rw er in
      (
        keep-Inv db inv j j' m m' hj refl own_row own_id refl refl ag refl,
        keep-Conserves db inv j j' m m' hj refl own_row own_id refl refl ag refl,
      )

  decide_claim-Lands :
      (s : DispatchSettings) (c : Clock) (worker_id : ℕ)
      → Lands db (decide_claim s c worker_id j m db)
  unfolding decide_claim
  decide_claim-Lands s c worker_id =
      let late = Claim.expired (metric_of m ProviderOutcome.permanent_failure) in
      branch-Lands (express_deadline_exceeded s c.deadline_at 0 m)
        ((permanently_fail j m deadline_error c.written_at >> pure late) db)
        (hand_out c worker_id j m db) db
        (pure-Lands (permanently_fail j m deadline_error c.written_at db) late db
          (permanently_fail-Lands deadline_error c.written_at))
        (mark_dispatching-Lands c worker_id)

  claim_message-Lands :
      (s : DispatchSettings) (c : Clock) (worker_id : ℕ)
      → Lands db (claim_message s c worker_id j m db)
  unfolding claim_message
  claim_message-Lands s c worker_id =
      guard-Lands (not (payment_eq m.payment_status PaymentStatus.reserved))
        Error.payment_not_reserved (decide_claim s c worker_id j m) db (rw er)
        (decide_claim-Lands s c worker_id)

own_job :
    (k : ℕ) (j : DispatchJob) (js : List DispatchJob)
    → find job_key k js ≡ some j
    → find job_key j.id js ≡ some j
own_job k j js h = subst (λ i. find job_key i js ≡ some j) (sym (find_key job_key k js j h)) h

-- A job that is not over has its message's payment still reserved.
pub reserved_of_open :
    (st : DispatchJobStatus) (p : PaymentStatus)
    → is_terminal st ≡ false
    → agrees st p ≡ true
    → p ≡ PaymentStatus.reserved
reserved_of_open st p open_job ag = ground arith

claim_job-Lands :
    (s : DispatchSettings) (c : Clock) (worker_id : ℕ) (j : DispatchJob) (m : Message)
    (db : Database)
    → Inv db
    → find job_key j.id db.jobs ≡ some j
    → find message_key j.message_id db.messages ≡ some m
    → agrees j.status m.payment_status ≡ true
    → Lands db (claim_job s c worker_id (some j) db)
unfolding claim_job Messages.get_for_update
claim_job-Lands s c worker_id j m db inv hj hm ag = elim (Bool-cases (is_terminal j.status)) [
  | inl over ↦ rw over (inv, λ u b hb. (b, hb, refl))
  | inr open_job ↦
      branch-Lands (is_terminal j.status || not (is_claimable s c.checked_at j))
        (ok (Claim.nothing, db))
        ((Messages.get_for_update j.message_id >>= claim_message s c worker_id j) db) db
        (inv, λ u b hb. (b, hb, refl))
        (rw (hm, Lands)
          (claim_message-Lands db inv j m hj hm
            (reserved_of_open j.status m.payment_status open_job ag) s c worker_id))
]

-- On a consistent database a worker's claim of any job commits, an expired express message
-- included: no exception, the invariant kept, and what each user holds and has spent unchanged.
pub claim-Lands :
    (s : DispatchSettings) (c : Clock) (job_id worker_id : ℕ) (db : Database)
    → Inv db
    → Lands db (claim s c job_id worker_id db)
unfolding claim Jobs.get_for_update
claim-Lands s c job_id worker_id db inv = elim (Option-cases (find job_key job_id db.jobs)) [
  | inl missing ↦ rw missing (inv, λ u b hb. (b, hb, refl))
  | inr (j, hj) ↦
      let (m, hm, ag) = inv.linked job_id j hj in
      rw hj (claim_job-Lands s c worker_id j m db inv (own_job job_id j db.jobs hj) hm ag)
]

-- The id of a success: there, and within its column, the `String(255)` of the job.
abbrev pub IsName : Option Text → Type 0
IsName none = ⊥
IsName (some p) = length p ≤ 255

-- A success that names the message at the provider, as the protocol asks for.
abbrev pub IsNamed : ProviderResult → Type 0
IsNamed r = r.outcome ≡ ProviderOutcome.success → IsName r.provider_message_id

record_success-Lands :
    (c : Clock) (p : Option Text) (j : DispatchJob) (m : Message) (db : Database)
    → IsName p
    → ((q : Text) → length q ≤ 255 → Lands db (complete c q j m db))
    → Lands db (record_success c p j m db)
unfolding record_success
record_success-Lands c none j m db h l = absurd h
record_success-Lands c (some p) j m db h l = l p h

module _ (s : DispatchSettings) (c : Clock) (jitter : ℕ) (result : ProviderResult)
    (named : IsNamed result) (db : Database) (inv : Inv db) where
  record_result-Lands :
      (o : ProviderOutcome) (j : DispatchJob) (m : Message)
      → o ≡ result.outcome
      → find job_key j.id db.jobs ≡ some j
      → find message_key j.message_id db.messages ≡ some m
      → m.payment_status ≡ PaymentStatus.reserved
      → Lands db (record_result s c jitter result o j m db)
  unfolding record_result
  record_result-Lands ProviderOutcome.success j m e hj hm er =
      record_success-Lands c result.provider_message_id j m db (named (sym e))
        (complete-Lands db inv j m hj hm er c)
  record_result-Lands ProviderOutcome.permanent_failure j m e hj hm er =
      record_permanent-Lands db inv j m hj hm er c (error_or result.error permanent_error)
  record_result-Lands ProviderOutcome.temporary_failure j m e hj hm er =
      record_temporary-Lands db inv j m hj hm er s c jitter result

  record_job-Lands :
      (worker_id : ℕ) (j : DispatchJob) (m : Message)
      → find job_key j.id db.jobs ≡ some j
      → find message_key j.message_id db.messages ≡ some m
      → agrees j.status m.payment_status ≡ true
      → Lands db (record_job s c jitter result worker_id (some j) db)
  unfolding record_job Messages.get_for_update
  record_job-Lands worker_id j m hj hm ag = elim (Bool-cases (holds_lease worker_id j)) [
    | inl held ↦
        rw (held, hm, Lands) (record_result-Lands result.outcome j m refl hj hm (ground arith))
    | inr lost ↦ rw (lost, Lands) (inv, λ u b hb. (b, hb, refl))
  ]

  -- On a consistent database the record of any provider result commits, if a success names the
  -- message by an id of at most 255 characters: no exception, the invariant kept, and what each
  -- user holds and has spent unchanged.
  pub record_tx-Lands :
      (job_id worker_id : ℕ) → Lands db (record_tx s c jitter job_id worker_id result db)
  unfolding record_tx Jobs.get_for_update
  record_tx-Lands job_id worker_id = elim (Option-cases (find job_key job_id db.jobs)) [
    | inl missing ↦ rw missing (inv, λ u b hb. (b, hb, refl))
    | inr (j, hj) ↦
        let (m, hm, ag) = inv.linked job_id j hj in
        rw hj (record_job-Lands worker_id j m (own_job job_id j db.jobs hj) hm ag)
  ]
