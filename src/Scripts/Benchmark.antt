-- ===== src/Scripts/Benchmark.antt =====
-- scripts/benchmark.py: the budget of the workers, the samples, the wait for the queue, the
-- pages of a listing and the percentiles. Latencies are whole units of time; a percentile's index
-- is computed exactly where the source has floating point numbers. Printing is left out.
pub mod Budget
pub mod Percentile
pub mod Drain
pub mod Fetch
use abrio.Prelude.{
  ℕ, zero, suc, ◌+◌, ◌-◌, ◌*◌, ◌/◌, min, max, Bool, true, false, Option, none, some, List, [], ◌∷◌,
  ◌++◌, length, keep, leb, ltb, ◌==◌, ◌||◌, if◌then◌else◌,
}
use abrio.Repositories.Claim.{sort_by, insert_by}

-- `Budget.claim`: the messages of the next batch, and what remains.
unfoldable pub claim : ℕ → ℕ → ℕ × ℕ
claim size remaining = let n = min size remaining in (n, remaining - n)

abbrev stop_at_zero : ℕ → List ℕ → List ℕ
stop_at_zero n rest = if n == 0 then [] else n ∷ rest

-- The batches that the loops of all workers claim, in the order in which the lock gives them; the
-- first claim of 0 ends them. `fuel` bounds their number.
unfoldable pub claims : ℕ → ℕ → ℕ → List ℕ
unfolding claim
claims zero size remaining = []
claims (suc fuel) size remaining =
    let (n, left) = claim size remaining in stop_at_zero n (claims fuel size left)

-- `Sample`: what the reports read of it.
pub record Sample : Type 0 where
  pub status : ℕ
  pub user_id : ℕ
  pub batch_size : ℕ

abbrev pub sum_sizes : List Sample → ℕ
sum_sizes [] = 0
sum_sizes (s ∷ samples) = s.batch_size + sum_sizes samples

-- `Stats.returned_message_count` and `Stats.accepted_message_count`
unfoldable pub returned_message_count : List Sample → ℕ
returned_message_count = sum_sizes

abbrev pub is_accepted : Sample → Bool
is_accepted s = s.status == 201

unfoldable pub accepted_message_count : List Sample → ℕ
accepted_message_count samples = sum_sizes (keep is_accepted samples)

-- One user of `expected_by_user` and `completed_by_user`.
pub record Tally : Type 0 where
  pub user_id : ℕ
  pub expected : ℕ
  pub completed : ℕ

-- `expected_by_user[user_id] += batch_size`
unfoldable pub expect : ℕ → ℕ → List Tally → List Tally
expect user_id n [] = record { user_id = user_id; expected = n; completed = 0 } ∷ []
expect user_id n (t ∷ ts) =
    if t.user_id == user_id
    then record t { expected = t.expected + n } ∷ ts
    else t ∷ expect user_id n ts

unfoldable pub expected_by_user : List Sample → List Tally → List Tally
unfolding expect
expected_by_user [] ts = ts
expected_by_user (s ∷ samples) ts = expected_by_user samples (expect s.user_id s.batch_size ts)

abbrev pub expected_total : List Tally → ℕ
expected_total [] = 0
expected_total (t ∷ ts) = t.expected + expected_total ts

abbrev pub terminal_total : List Tally → ℕ
terminal_total [] = 0
terminal_total (t ∷ ts) = t.completed + terminal_total ts

pub record DrainResult : Type 0 where
  pub drained : Bool
  pub elapsed : ℕ
  pub expected : ℕ
  pub terminal : ℕ
  pub peak_backlog : ℕ
  pub terminal_at_start : ℕ

-- One user's poll: the messages that `sent` and `permanent_failed` count, or a failed request.
abbrev pub polled : Tally → Option ℕ → Tally
polled t none = t
polled t (some terminal) = record t { completed = min t.expected terminal }

unfoldable pub poll : (ℕ → Option ℕ) → List Tally → List Tally
poll summary [] = []
poll summary (t ∷ ts) = polled t (summary t.user_id) ∷ poll summary ts

abbrev pub first_total : Option ℕ → ℕ → ℕ
first_total none total = total
first_total (some start) total = start

-- The rounds of the loop: `summary` and `elapsed` give the answers and the clock of each.
module _ (summary : ℕ → ℕ → Option ℕ) (elapsed : ℕ → ℕ) (timeout expected : ℕ) where
  unfoldable pub rounds : ℕ → ℕ → List Tally → ℕ → Option ℕ → Option DrainResult
  unfolding poll
  rounds zero n ts peak start = none
  rounds (suc fuel) n ts peak start =
      let ts' = poll (summary n) ts in
      let total = terminal_total ts' in
      let peak' = max peak (expected - total) in
      let start' = first_total start total in
      let result : DrainResult = record {
        drained = leb expected total;
        elapsed = elapsed n;
        expected = expected;
        terminal = total;
        peak_backlog = peak';
        terminal_at_start = start';
      } in
      let rest = rounds fuel (suc n) ts' peak' (some start') in
      if leb expected total || leb timeout (elapsed n) then some result else rest

abbrev pub nothing_expected : DrainResult
nothing_expected = record {
  drained = true;
  elapsed = 0;
  expected = 0;
  terminal = 0;
  peak_backlog = 0;
  terminal_at_start = 0;
}

unfoldable pub wait_for_queue_drain :
    (ℕ → ℕ → Option ℕ) → (ℕ → ℕ) → ℕ → ℕ → List Sample → Option DrainResult
unfolding rounds expected_by_user
wait_for_queue_drain summary elapsed timeout fuel samples =
    let ts = expected_by_user (keep is_accepted samples) [] in
    if expected_total ts == 0
    then some nothing_expected
    else rounds summary elapsed timeout (expected_total ts) fuel 0 ts 0 none

-- The items and the number of pages that a page answers with.
module _ {A : Type 0} where
  abbrev pub is_empty : List A → Bool
  is_empty [] = true
  is_empty (a ∷ items) = false

  -- `fetch_user_messages`: the loop from one page on.
  unfoldable pub fetch : (ℕ → List A × ℕ) → ℕ → ℕ → List A → Option (List A)
  fetch get zero page messages = none
  fetch get (suc fuel) page messages =
      let (items, pages) = get page in
      let rest = fetch get fuel (page + 1) (messages ++ items) in
      if is_empty items || leb pages page then some (messages ++ items) else rest

-- `sorted_values[idx]`
abbrev pub nth : ℕ → List ℕ → ℕ
nth n [] = 0
nth zero (v ∷ values) = v
nth (suc n) (v ∷ values) = nth n values

-- `int(len(sorted_values) * p / 100 + 0.5)`
abbrev pub rank : ℕ → ℕ → ℕ
rank n p = (2 * (n * p) + 100) / 200

unfoldable pub pct : List ℕ → ℕ → ℕ
pct [] p = 0
pct (v ∷ values) p = let n = length (v ∷ values) in nth (min (n - 1) (rank n p - 1)) (v ∷ values)

-- `latency_stats`, without the mean.
pub record LatencyStats : Type 0 where
  pub p50 : ℕ
  pub p75 : ℕ
  pub p90 : ℕ
  pub p95 : ℕ
  pub p99 : ℕ
  pub maximum : ℕ

unfoldable pub latency_stats : List ℕ → LatencyStats
unfolding pct sort_by insert_by
latency_stats latencies =
    let values = sort_by leb latencies in
    record {
      p50 = pct values 50;
      p75 = pct values 75;
      p90 = pct values 90;
      p95 = pct values 95;
      p99 = pct values 99;
      maximum = nth (length values - 1) values;
    }
