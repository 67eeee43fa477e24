-- ===== src/Scripts/Limit.antt =====
-- How many of one user's requests the balance admits: the promise that `scenario_balance_limit` of
-- scripts/loadtest.py measures.
use native.Mathlib.Nat.{div-eq_of_lt, div-eq-sub-div, mul-div_cancel}
use abrio.Prelude.{
  ℕ, suc, some, ◌+◌, ◌-◌, ◌*◌, ◌/◌, ◌≤◌, ◌<◌, ◌≡◌, refl, inl, inr, Bool, true, List, [], ◌∷◌, All,
  length, min, ◌∙◌, ==-refl, ◌==◌, leb, Bool-cases, arith,
}
use abrio.Prelude.Int.{ℤ, ≤ℤ→leb_ℤ, leb_ℤ, pos, ◌≤ℤ◌, ◌-ℤ◌, int_laws}
use abrio.Domain.Enums.{MessagePriority}
use abrio.Database.Rows.{Balance, balance_key, available_credits}
use abrio.Database.Table.{find}
use abrio.Ledger.Consistent.{Inv, IsSound}
use abrio.Ledger.Requests.{create_message-Safe}
use abrio.Api.Routes.{send_message}
use abrio.Metrics.{World, record_submission_rejected}
use abrio.UseCases.Submission.{Prices}
use abrio.Api.Schemas.{valid_request}
use abrio.Scripts.Loadtest.{
  Attempt, payload, statuses, accepted, rejected_402, send, check, all_ok, scenario_balance_limit,
}
use abrio.Ledger.Accounts.{reserved_more}
use abrio.Scripts.Attempts.{
  AllApart, IsReady, AllFresh, AllFresh-stored, row, stored, refused, send-accepts, send-rejects,
  stored-IsReady,
}

admits_one :
    (c left n : ℕ) → 0 < c → c ≤ left → min (suc n) (left / c) ≡ suc (min n ((left - c) / c))
admits_one c left n dear h = omega (arith, div-eq-sub-div dear h)

admits_none : (c left n : ℕ) → left < c → min n (left / c) ≡ 0
admits_none c left n h = omega (arith, div-eq_of_lt h)

-- What the statuses and the last balance tell of the attempts.
pub record IsExact (c left n : ℕ) (ss : List ℕ) : Type 0 where
  pub all_accepted : accepted ss ≡ min n (left / c)
  pub all_answered : accepted ss + rejected_402 ss ≡ n

IsExact-accept :
    (c left n : ℕ) (ss : List ℕ)
    → 0 < c
    → c ≤ left
    → IsExact c (left - c) n ss
    → IsExact c left (suc n) (201 ∷ ss)
unfolding accepted rejected_402
IsExact-accept c left n ss dear h x = record {
  all_accepted = omega (arith, x.all_accepted, admits_one c left n dear h);
  all_answered = omega (arith, x.all_answered);
}

IsExact-reject :
    (c left n : ℕ) (ss : List ℕ)
    → left < c
    → IsExact c left n ss
    → IsExact c left (suc n) (402 ∷ ss)
unfolding accepted rejected_402
IsExact-reject c left n ss h x = record {
  all_accepted =
      omega (arith, x.all_accepted, admits_none c left n h, admits_none c left (suc n) h);
  all_answered = omega (arith, x.all_answered);
}

IsExact-nil : (c left : ℕ) → IsExact c left 0 []
unfolding accepted rejected_402
IsExact-nil c left = record { all_accepted = omega arith; all_answered = refl }

-- Attempts that the schema accepts and whose ids and keys are new.
abbrev pub Valid : (ℕ → Bool) → ℕ → List Attempt → Type 0
Valid digit u = All (λ a. valid_request digit (payload u MessagePriority.normal a) ≡ true)

module _ (digit : ℕ → Bool) (p : Prices) (u c : ℕ) (price : p.cost_per_message ≡ pos c)
    (dear : 0 < c) where
  -- At a positive price, attempts of one user that the schema accepts and whose ids and keys are
  -- new and differ, in any order on a consistent database: as many are answered 201 as there are
  -- attempts or as the available credits pay for, whichever is less, and every other one is
  -- answered 402, if the credits with one price stay in the range of the column.
  pub statuses-IsExact :
      (attempts : List Attempt) (left : ℕ) (b : Balance) (w : World)
      → IsReady u c left b w.db
      → Valid digit u attempts
      → AllFresh p u w.db attempts
      → AllApart attempts
      → IsExact c left (length attempts) (statuses digit p u attempts w).0
  unfolding statuses
  statuses-IsExact [] left b w ready valid fresh apart = IsExact-nil c left
  statuses-IsExact (a ∷ rest) left b w ready valid fresh apart = elim (Bool-cases (leb c left)) [
    | inl h ↦
        let more : c ≤ left = ground arith in
        rw (send-accepts digit p u c price dear a left b w ready valid.0 fresh.0 more) (
          IsExact-accept c left (length rest) (statuses digit p u rest (stored p u a b w)).0 dear
            more
            (statuses-IsExact rest (left - c) (reserved_more b (row p u a).cost) (stored p u a b w)
              (stored-IsReady digit p u c price dear a left b w ready valid.0 fresh.0 more) valid.1
              (AllFresh-stored p u a rest b w apart.0 fresh.1) apart.1))
    | inr h ↦
        let less : left < c = ground arith in
        rw (send-rejects digit p u c price dear a left b w ready valid.0 fresh.0 less) (
          IsExact-reject c left (length rest) (statuses digit p u rest (refused w)).0 less (
            statuses-IsExact rest left b (refused w) (unfold record_submission_rejected in ready)
              valid.1 (unfold record_submission_rejected in fresh.1) apart.1))
  ]

send-Inv :
    (digit : ℕ → Bool) (p : Prices) (u : ℕ) (a : Attempt) (w : World)
    → Inv w.db
    → Inv (send digit p u MessagePriority.normal a w).1.db
unfolding send send_message
send-Inv digit p u a w inv =
    elim (Bool-cases (valid_request digit (payload u MessagePriority.normal a))) [
      | inl e ↦
          rw e (create_message-Safe p a.draws a.now w inv (payload u MessagePriority.normal a)).0
      | inr n ↦ rw n inv
    ]

statuses-Inv :
    (digit : ℕ → Bool) (p : Prices) (u : ℕ) (attempts : List Attempt) (w : World)
    → Inv w.db
    → Inv (statuses digit p u attempts w).1.db
unfolding statuses
statuses-Inv digit p u [] w inv = inv
statuses-Inv digit p u (a ∷ rest) w inv =
    statuses-Inv digit p u rest (send digit p u MessagePriority.normal a w).1
      (send-Inv digit p u a w inv)

pub all_ok-check :
    (ok : Bool) (report : List Bool) → ok ≡ true → all_ok (check ok report) ≡ all_ok report
unfolding all_ok check
all_ok-check ok [] h = rw h refl
all_ok-check ok (x ∷ report) h = rw (all_ok-check ok report h) refl

checks_pass :
    (credits n : ℕ) (ss : List ℕ) (available : ℤ) (report : List Bool)
    → accepted ss ≡ credits
    → accepted ss + rejected_402 ss ≡ n
    → pos 0 ≤ℤ available
    → all_ok (scenario_balance_limit credits n ss available report) ≡ all_ok report
unfolding scenario_balance_limit
checks_pass credits n ss available report a r h =
    all_ok-check (leb_ℤ (pos 0) available) _ (≤ℤ→leb_ℤ (pos 0) available h)
    ∙ all_ok-check (accepted ss + rejected_402 ss == n) _ (rw r (==-refl n))
    ∙ all_ok-check (accepted ss == credits) report (rw a (==-refl credits))

-- Under the conditions of the exact count, if the available credits are the price of exactly the
-- given number of messages and there are at least that many attempts, the three checks of the
-- scenario on the statuses and on the balance read last add no failure to the report.
scenario_balance_limit-passes :
    (digit : ℕ → Bool) (p : Prices) (u c credits : ℕ) (attempts : List Attempt) (b b' : Balance)
    (w : World) (report : List Bool)
    → p.cost_per_message ≡ pos c
    → 0 < c
    → IsReady u c (credits * c) b w.db
    → Valid digit u attempts
    → AllFresh p u w.db attempts
    → AllApart attempts
    → credits ≤ length attempts
    → find balance_key u (statuses digit p u attempts w).1.db.balances ≡ some b'
    → all_ok (
        scenario_balance_limit credits
          (length attempts)
          (statuses digit p u attempts w).0
          (available_credits b')
          report)
      ≡ all_ok report
unfolding available_credits
scenario_balance_limit-passes digit p u c credits attempts b b' w report price dear ready valid
      fresh apart enough h =
    let ss = (statuses digit p u attempts w).0 in
    let x =
      statuses-IsExact digit p u c price dear attempts (credits * c) b w ready valid fresh apart in
    let s : IsSound b' = ((statuses-Inv digit p u attempts w ready.inv).funded u b' h).0 in
    checks_pass credits (length attempts) ss (b'.credits -ℤ b'.reserved_credits) report
      (omega (arith, x.all_accepted, mul-div_cancel credits dear, enough)) x.all_answered
      (omega (int_laws, s.covered))
