-- ===== src/Scripts/Idempotency.antt =====
-- A request that is sent twice: `scenario_idempotency` of scripts/loadtest.py.
use abrio.Prelude.{
  ℕ, ◌≤◌, ◌<◌, ◌≡◌, refl, ap, ◌∙◌, Bool, true, false, ◌&&◌, some, List, [], ◌∷◌, ◌++◌, codes, ◌==◌,
  ==-refl, arith,
}
use abrio.Prelude.Int.{pos, ◌+ℤ◌, ◌-ℤ◌, ◌<ℤ◌, leb_ℤ, int_laws, pos_part, neg_part}
use abrio.Domain.Enums.{MessagePriority}
use abrio.Database.Table.{find}
use abrio.Database.Rows.{Balance, Message, balance_key, available_credits}
use abrio.Database.Session.{ok}
use abrio.Database.Constraints.{message_conflicts, numeric_limit}
use abrio.Repositories.Messages.{first}
use abrio.Metrics.{World, SubmissionType, record_messages_submitted, record_idempotent_replay}
use abrio.UseCases.Submission.{Prices, Draws, create_message, new_message, get_message_cost}
use abrio.Ledger.Accounts.{reserved_more}
use abrio.Ledger.Admission.{IsFresh}
use abrio.Ledger.Answers.{create_message-replay}
use abrio.Api.Schemas.{valid_request}
use abrio.Api.Routes.{Content, Response, respond, send_message}
use abrio.Scripts.Loadtest.{
  Attempt, payload, send_returning_json, idempotency_checks, scenario_idempotency, check, all_ok,
}
use abrio.Scripts.Attempts.{IsReady, row, row_cost, below, stored, accepted_as, stored-IsReady}
use abrio.Scripts.Limit.{all_ok-check}

-- A row that conflicts with none before it is the first with its key.
first-append :
    (m : Message) (ms : List Message)
    → message_conflicts m ms ≡ false
    → first (λ y. y.idempotency_key == m.idempotency_key && y.user_id == m.user_id) (ms ++ m ∷ [])
      ≡ some m
unfolding first message_conflicts
first-append m [] h = ground arith
first-append m (x ∷ ms) h = ground (arith, first-append m ms)

-- The same text under the same key, whatever the server draws for it.
abbrev pub hello : ℕ → Draws → ℕ → Attempt
hello key d now = record { body = codes "idem hello"; idempotency_key = key; draws = d; now = now }

module _ (digit : ℕ → Bool) (p : Prices) (u c : ℕ) (price : p.cost_per_message ≡ pos c)
    (dear : 0 < c) (key : ℕ) (d d' : Draws) (now later left : ℕ) (b : Balance) (w : World)
    (ready : IsReady u c left b w.db) (enough : c ≤ left)
    (valid : valid_request digit (payload u MessagePriority.normal (hello key d now)) ≡ true)
    (fresh : IsFresh (d.job_id 0) (row p u (hello key d now)) w.db) where
  abbrev a : Attempt
  a = hello key d now

  cost : get_message_cost p (payload u MessagePriority.normal (hello key d' later)).item ≡ pos c
  unfolding get_message_cost
  cost = price

  abbrev answer : Response Message
  answer = record { status = 201; content = Content.model (row p u a) }

  first_sent : send_returning_json digit p u (hello key d now) w ≡ (answer, stored p u a b w)
  unfolding send_returning_json send_message respond
  first_sent =
      rw (valid, accepted_as digit p u c price dear a left b w ready valid fresh enough) refl

  -- The second request, on any world with the messages that the first left.
  module _ (x : World) (kept : x.db.messages ≡ (stored p u a b w).db.messages) where
    replayed :
        create_message p d' later (payload u MessagePriority.normal (hello key d' later)) x
        ≡ (ok (row p u a), record_idempotent_replay SubmissionType.single x)
    unfolding record_messages_submitted new_message
    replayed =
        create_message-replay p d' later (payload u MessagePriority.normal (hello key d' later)) x
          (row p u a)
          (ap
              (first (λ y.
                y.idempotency_key == (row p u a).idempotency_key
                && y.user_id == (row p u a).user_id))
              kept
            ∙ first-append (row p u a) w.db.messages fresh.unused)
          (rw cost (ground (arith, top))) (rw cost (ground (arith, dear)))
      where
        top : pos c <ℤ numeric_limit
        top = below digit p u c price dear a left b w ready valid fresh

    second_sent :
        send_returning_json digit p u (hello key d' later) x
        ≡ (answer, record_idempotent_replay SubmissionType.single x)
    unfolding send_returning_json send_message respond
    second_sent = rw (valid, replayed) refl

once_charged :
    (m : Message) (b : Balance) (report : List Bool)
    → b.reserved_credits ≡ pos 0
    → m.cost ≡ pos 100
    → (checks : List Bool) × (idempotency_checks
          (some m)
          (some m)
          (some (reserved_more b m.cost))
          report
        ≡ some checks)
      × (all_ok checks ≡ all_ok report)
unfolding idempotency_checks available_credits
once_charged m b report z e =
    let charged = b.credits -ℤ (b.credits -ℤ (b.reserved_credits +ℤ m.cost)) in
    let hundred : charged ≡ pos 100 =
      omega (int_laws, ap pos_part z, ap neg_part z, ap pos_part e, ap neg_part e) in
    let exact = leb_ℤ charged (pos 100) && leb_ℤ (pos 100) charged in
    (
      check exact (check (m.id == m.id) report),
      refl,
      all_ok-check exact (check (m.id == m.id) report) (rw hundred refl)
          ∙ all_ok-check (m.id == m.id) report (==-refl m.id),
    )

-- What runs changes no message and no balance, as the relays: they write jobs and counters.
abbrev pub OnlyJobs : (World → World) → Type 0
OnlyJobs f = (x : World) → ((f x).db.messages ≡ x.db.messages) × ((f x).db.balances ≡ x.db.balances)

-- At a price of 1.00, for a ready user with nothing reserved and credits for one message, and a
-- valid request under a new key: the scenario, which sends it twice, whatever the server draws for
-- the second, ends without an exception, and its two checks, that both answers are one message and
-- that one message is charged, add no failure to the report, if what runs between its requests
-- changes no message and no balance, as the relays, and unlike a worker that settles the payment.
pub scenario_idempotency-passes :
    (digit : ℕ → Bool) (p : Prices) (u key left : ℕ) (d d' : Draws) (now later : ℕ) (b : Balance)
    (f g : World → World) (w : World) (report : List Bool)
    → OnlyJobs f
    → OnlyJobs g
    → p.cost_per_message ≡ pos 100
    → IsReady u 100 left b w.db
    → b.reserved_credits ≡ pos 0
    → 100 ≤ left
    → valid_request digit (payload u MessagePriority.normal (hello key d now)) ≡ true
    → IsFresh (d.job_id 0) (row p u (hello key d now)) w.db
    → (checks : List Bool) × (scenario_idempotency digit p u
          (hello key d now)
          (hello key d' later)
          f
          g
          w
          report
        ≡ some checks)
      × (all_ok checks ≡ all_ok report)
unfolding scenario_idempotency record_idempotent_replay record_messages_submitted
scenario_idempotency-passes digit p u key left d d' now later b f g w report of og price ready
      zero_reserved enough valid fresh =
    let dear : 0 < 100 = omega arith in
    let a = hello key d now in
    let w1 = stored p u a b w in
    let w2 = record_idempotent_replay SubmissionType.single (f w1) in
    let e1 =
      first_sent digit p u 100 price dear key d d' now later left b w ready enough valid fresh in
    let e2 =
      second_sent digit p u 100 price dear key d d' now later left b w ready enough valid fresh
        (f w1) (of w1).0 in
    let m = row p u a in
    let r = stored-IsReady digit p u 100 price dear a left b w ready valid fresh enough in
    let read : find balance_key u (g w2).db.balances ≡ some (reserved_more b m.cost) =
      ap (find balance_key u) ((og w2).1 ∙ (of w1).1) ∙ r.account.balance in
    let (checks, e, passes) =
      once_charged m b report zero_reserved (row_cost digit p u 100 price dear a) in
    (checks, rw (e1, e2, read) e, passes)
