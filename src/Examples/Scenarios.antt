-- ===== src/Examples/Scenarios.antt =====
-- The load test on a small balance, and the routes.
use abrio.Prelude.{
  ℕ, ◌+◌, ◌*◌, ◌≡◌, refl, ◌&&◌, Bool, some, none, List, [], ◌∷◌, codes, leb, arith, false,
}
use abrio.Prelude.Int.{pos, negsuc, ◌+ℤ◌}
use abrio.Database.Table.{find}
use abrio.Database.Rows.{balance_key}
use abrio.Database.Constraints.{
  message_conflicts, insert_message, insert_each, insert_messages, insert_job, insert_jobs,
  update_balance,
}
use abrio.Repositories.Balances
use abrio.Repositories.Jobs
use abrio.Metrics.{record_messages_submitted, record_submission_rejected, World}
use abrio.UseCases.Submission.{
  Prices, Draws, get_message_cost, new_message, new_jobs, submit, finish_single, refuse_single,
  create_message,
}
use abrio.Ledger.Admission.{IsAccount}
use abrio.Ledger.Verdict.{verdict, create_message-verdict}
use abrio.Api.Schemas.{valid_recipient, valid_item, valid_request}
use abrio.Api.Amounts.{digits, serialize_decimal, read_amount, read_amount-serialize_decimal}
use abrio.Api.Fits.{Fits, submissions-Fits}
use abrio.Logging.Record.{LogRecord, get, format, normalize_request_id}
use abrio.Logging.Fields.{field, get-format}
use abrio.RateLimit.Scope.{Scope}
use abrio.Observability.{normalized_route}
use abrio.Observability.Dispatch.{
  App, Reply, Process, IsServed, requested, dispatch, dispatch-IsServed,
}
use abrio.Scripts.Benchmark.{Sample, DrainResult, wait_for_queue_drain, accepted_message_count}
use abrio.Scripts.Benchmark.Drain.{IsSettled, wait_for_queue_drain-IsSettled}
use abrio.Domain.Enums.{MessagePriority}
use abrio.Relay.{claim_jobs}
use abrio.Scripts.Idempotency.{hello, OnlyJobs, scenario_idempotency-passes}
use abrio.Api.Routes.{respond, send_message, batch_send_message, app_error_handler}
use abrio.Scripts.Loadtest.{scenario_idempotency, Attempt, send, statuses, all_ok}
use abrio.Scripts.Attempts.{IsApart, AllApart, IsReady, AllFresh}
use abrio.Scripts.Limit.{Valid, IsExact, statuses-IsExact}
use abrio.Examples.Data.{prices, draws, start, start-Inv, world, request, batch_request, account}

abbrev digit : ℕ → Bool
digit c = leb 48 c && leb c 57

abbrev high_prices : Prices
high_prices = record { cost_per_message = pos 500; cost_per_express_message = pos 800 }

abbrev attempt : ℕ → Attempt
attempt k = record {
  body = codes "limit";
  idempotency_key = k;
  draws = record { message_id = λ n. 100 * k + n; job_id = λ n. 100 * k + n };
  now = 1000 + k;
}

abbrev attempts : List Attempt
attempts = attempt 1 ∷ attempt 2 ∷ attempt 3 ∷ []

start-IsAccount : IsAccount 1 (account (pos 1000) (pos 0)) start
start-IsAccount = record { registered = refl; balance = refl }

start-IsReady : IsReady 1 500 1000 (account (pos 1000) (pos 0)) start
unfolding ◌+ℤ◌
start-IsReady = record {
  inv = start-Inv;
  account = start-IsAccount;
  available = refl;
  roomy = omega arith;
}

attempts-Valid : Valid digit 1 attempts
unfolding valid_request valid_item valid_recipient
attempts-Valid = (refl, (refl, (refl, tt)))

attempts-AllFresh : AllFresh high_prices 1 start attempts
unfolding message_conflicts
attempts-AllFresh = (
  record { unused = refl; drawn = refl },
  (record { unused = refl; drawn = refl }, (record { unused = refl; drawn = refl }, tt)),
)

attempts-AllApart : AllApart attempts
attempts-AllApart = ((first_second, (first_third, tt)), ((second_third, tt), (tt, tt)))
  where
    first_second : IsApart (attempt 1) (attempt 2)
    first_second = record {
      message_ids = λ e. omega (arith, e);
      job_ids = λ e. omega (arith, e);
      keys = λ e. omega (arith, e);
    }

    first_third : IsApart (attempt 1) (attempt 3)
    first_third = record {
      message_ids = λ e. omega (arith, e);
      job_ids = λ e. omega (arith, e);
      keys = λ e. omega (arith, e);
    }

    second_third : IsApart (attempt 2) (attempt 3)
    second_third = record {
      message_ids = λ e. omega (arith, e);
      job_ids = λ e. omega (arith, e);
      keys = λ e. omega (arith, e);
    }

create_message-verdict_example :
    create_message prices draws 1000 request world
    ≡ verdict draws 1000 request
        (new_message prices 1000 1 100 request.item)
        (account (pos 1000) (pos 0))
        world
create_message-verdict_example =
    create_message-verdict prices draws 1000 request (account (pos 1000) (pos 0)) world start-Inv
      (unfold new_message in start-IsAccount)
      (unfold message_conflicts in record { unused = refl; drawn = refl })
      (unfold new_message get_message_cost in omega arith)
      (unfold new_message get_message_cost in omega arith)

statuses-IsExact_example : IsExact 500 1000 3 (statuses digit high_prices 1 attempts world).0
statuses-IsExact_example =
    statuses-IsExact digit high_prices 1 500 refl (omega arith) attempts 1000
      (account (pos 1000) (pos 0)) world start-IsReady attempts-Valid attempts-AllFresh
      attempts-AllApart

-- After the two that the balance pays for.
spent :
    find balance_key 1 (statuses digit high_prices 1 attempts world).1.db.balances
    ≡ some (account (pos 1000) (pos 1000))
unfolding statuses send send_message respond valid_request valid_item valid_recipient create_message
    finish_single refuse_single submit new_message new_jobs get_message_cost Jobs.create
    insert_messages insert_each insert_message message_conflicts insert_jobs insert_job
    Balances.reserve_credits update_balance ◌+ℤ◌ record_messages_submitted
    record_submission_rejected app_error_handler
spent = refl

submissions-Fits_example :
    Fits (send_message digit prices draws 1000 request world).1.db.messages
    × Fits (batch_send_message digit 100 prices draws 1000 batch_request world).1.db.messages
submissions-Fits_example =
    submissions-Fits digit prices draws 1000 world start-Inv tt 100 request batch_request

-- A line about a request, with an attribute of the library's own and one that is None.
abbrev line : LogRecord ℕ
line = record {
  timestamp = 1;
  levelname = 2;
  name = 3;
  message = 4;
  traceback = some 5;
  attributes =
      (codes "msecs", some 6)
      ∷ (codes "route", some 7)
      ∷ (codes "_tag", some 8)
      ∷ (codes "user", none)
      ∷ [];
}

get-format_example : get (codes "route") (format line) ≡ field (codes "route") line
get-format_example = get-format (codes "route") line (refl, (refl, (refl, (refl, tt))))

abbrev scope : Scope
scope = record {
  method = codes "post";
  path = codes "/api/v1/messages/";
  query_string = codes "";
  client = none;
}

abbrev rejects : App
rejects id w = (Reply.response 422 [], some (codes "/api/v1/messages/"), w)

abbrev process : Process
process = record { world = world; http_requests = []; log = []; request_id = none }

dispatch-IsServed_example :
    IsServed
      (codes "X-Request-ID")
      (normalize_request_id (λ t. none) (codes "new") none)
      scope.path
      (requested scope (normalized_route (some (codes "/api/v1/messages/")) scope.path) 422 9)
      process
      (Reply.response 422 [])
      (dispatch (codes "X-Request-ID") scope 9 (λ t. none) (codes "new") none rejects process)
dispatch-IsServed_example =
    dispatch-IsServed (codes "X-Request-ID") scope 9 (λ t. none) (codes "new") none rejects process

abbrev samples : List Sample
samples =
    record { status = 201; user_id = 1; batch_size = 2 }
    ∷ record { status = 402; user_id = 1; batch_size = 2 }
    ∷ record { status = 201; user_id = 2; batch_size = 3 }
    ∷ []

wait_for_queue_drain-IsSettled_example :
    (r : DrainResult) × (wait_for_queue_drain (λ n u. some n) (λ n. 2 * n) 8 5 samples ≡ some r)
    × IsSettled (accepted_message_count samples) r
wait_for_queue_drain-IsSettled_example =
    wait_for_queue_drain-IsSettled (λ n u. some n) (λ n. 2 * n) 8 5 4 samples (omega arith)
      (omega arith)

abbrev unit_prices : Prices
unit_prices = record { cost_per_message = pos 100; cost_per_express_message = pos 200 }

hundred_IsReady : IsReady 1 100 1000 (account (pos 1000) (pos 0)) start
unfolding ◌+ℤ◌
hundred_IsReady = record {
  inv = start-Inv;
  account = start-IsAccount;
  available = refl;
  roomy = omega arith;
}

abbrev again : Draws
again = record { message_id = λ n. 300 + n; job_id = λ n. 400 + n }

-- Between the requests a relay takes what is due.
abbrev relayed : World → World
relayed w =
    (claim_jobs
      (record { priority = MessagePriority.normal; batch_size = 100; per_user_limit = 10 }) 4
      (λ i. false) 1500 w).1

relayed-OnlyJobs : OnlyJobs relayed
unfolding claim_jobs
relayed-OnlyJobs x = (refl, refl)

scenario_idempotency-passes_example :
    (checks : List Bool) × (scenario_idempotency digit unit_prices 1
        (hello 7 draws 1000)
        (hello 7 again 2000)
        relayed
        relayed
        world
        []
      ≡ some checks)
    × (all_ok checks ≡ all_ok [])
scenario_idempotency-passes_example =
    scenario_idempotency-passes digit unit_prices 1 7 1000 draws again 1000 2000
      (account (pos 1000) (pos 0)) relayed relayed world [] relayed-OnlyJobs relayed-OnlyJobs refl
      hundred_IsReady refl (omega arith) (unfold valid_request valid_item valid_recipient in refl)
      (unfold message_conflicts in record { unused = refl; drawn = refl })

read_amount-serialize_decimal_example : read_amount (serialize_decimal (negsuc 1249)) ≡ negsuc 1249
read_amount-serialize_decimal_example = read_amount-serialize_decimal (negsuc 1249)

printed : serialize_decimal (negsuc 1249) ≡ codes "-12.50"
unfolding serialize_decimal digits
printed = refl
