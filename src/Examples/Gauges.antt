-- ===== src/Examples/Gauges.antt =====
-- Prices, gauges, pages and providers on small databases.
use abrio.Prelude.{
  ℕ, suc, arith, Bool, ◌-◌, ◌*◌, ◌^◌, ◌≤◌, ◌≡◌, Option, none, some, true, false, List, [], ◌∷◌, All,
  keep, length, ◌==◌, refl,
}
use abrio.Domain.Enums.{MessagePriority, MessageStatus, PaymentStatus}
use abrio.Config.{Decimal, is_not_positive, validate_cost}
use abrio.Config.Costs.{Nearest, validate_cost_lem}
use abrio.Database.Rows.{Message, DispatchJob}
use abrio.Repositories.Claim.{candidates, eligible, claim_batch}
use abrio.Monitor.Collect.{collect_payment_consistency_metrics, collect_dispatch_ready_metrics}
use abrio.Monitor.Alarms.{silent, IsHealthy, collect_payment_consistency_metrics_lem}
use abrio.Monitor.Backlog.{collect_dispatch_ready_metrics_lem}
use abrio.Monitor.Cache.{Scrape}
use abrio.Pagination.Rows.{Filters, messages_page, selected}
use abrio.Pagination.Pages.{at}
use abrio.Scripts.Benchmark.{fetch}
use abrio.Scripts.Benchmark.Fetch.{fetch-messages_page}
use abrio.Examples.Data.{start, pending_job, sending_job, message}

-- A price of 0.004.
abbrev small_price : Decimal
small_price = record { negative = false; mantissa = 4; places = 3 }

validate_cost_lem_example :
    (is_not_positive small_price ≡ true → validate_cost small_price ≡ none)
    × (is_not_positive small_price ≡ false
        → (cents : ℕ) × (validate_cost small_price ≡ some cents) × Nearest cents (4 * 100) (10 ^ 3))
validate_cost_lem_example = validate_cost_lem small_price

collect_payment_consistency_metrics_lem_example :
    (collect_payment_consistency_metrics start ≡ silent → All (IsHealthy []) start.balances)
    × (All (IsHealthy []) start.balances → collect_payment_consistency_metrics start ≡ silent)
collect_payment_consistency_metrics_lem_example = collect_payment_consistency_metrics_lem start

abbrev jobs : List DispatchJob
jobs = pending_job ∷ sending_job ∷ []

collect_dispatch_ready_metrics_lem_example :
    let ready = collect_dispatch_ready_metrics 2000 jobs MessagePriority.normal in
    (ready.jobs ≡ length (candidates MessagePriority.normal 2000 60 jobs))
    × All
        (λ j. 2000 - j.created_at ≤ ready.oldest_age)
        (keep (eligible MessagePriority.normal 2000 60) jobs)
    × (ready.jobs ≡ 0
        → (relay_id limit per_user_limit : ℕ) (locked : ℕ → Bool)
        → (claim_batch MessagePriority.normal relay_id limit 60 per_user_limit locked 2000 jobs).0
          ≡ [])
collect_dispatch_ready_metrics_lem_example =
    collect_dispatch_ready_metrics_lem 2000 jobs MessagePriority.normal

abbrev scrape : ℕ → Option ℕ → Scrape ℕ
scrape now answer = record { force = false; now = now; answer = answer }

abbrev no_filters : Filters
no_filters = record {
  user_id = none;
  status = none;
  priority = none;
  payment_status = none;
  created_after = none;
  created_before = none;
  updated_after = none;
  updated_before = none;
}

abbrev older_message : Message
older_message = message MessageStatus.queued PaymentStatus.reserved

abbrev newer_message : Message
newer_message = record older_message { id = 101; created_at = 2000 }

abbrev listing : List Message
listing = older_message ∷ newer_message ∷ []

-- Each page's query breaks ties in its own way.
abbrev by_page : ℕ → Message → Message → Bool
by_page k a b = k == 1

fetch-messages_page_example :
    fetch
      (λ k. (
        (messages_page (λ m. m.created_at) (by_page k) (at 1 k) no_filters listing).items,
        (messages_page (λ m. m.created_at) (by_page k) (at 1 k) no_filters listing).pages,
      ))
      (suc (messages_page (λ m. m.created_at) (by_page 1) (at 1 1) no_filters listing).pages)
      1
      []
    ≡ some (selected (λ m. m.created_at) (by_page 0) no_filters listing)
fetch-messages_page_example =
    fetch-messages_page (λ m. m.created_at) by_page (by_page 0) 1 no_filters listing
      ((refl, tt), (tt, tt)) (omega arith)
