-- ===== src/Monitor/Cache.antt =====
-- src/core/metrics.py: `_MetricCache`, `_collect_ready_jobs`, `_collect_payment_consistency` and
-- `collect_database_metrics`. The monotonic clock `now` and the wall clock are in microseconds; a
-- query that raises is `none`.
use abrio.Prelude.{
  ℕ, ◌+◌, ◌*◌, ◌≤◌, ◌≡◌, refl, ◌⊎◌, inl, inr, Bool, true, false, ◌&&◌, not, Option, none, some,
  List, [], ◌∷◌, ltb, arith, if◌then◌else◌,
}
use abrio.Domain.Enums.{MessagePriority}
use abrio.Database.Rows.{Database}
use abrio.Repositories.Jobs.{second}
use abrio.Monitor.Collect.{
  Ready, Violations, collect_dispatch_ready_metrics, collect_payment_consistency_metrics,
}

pub record MetricCache : Type 0 where
  pub expires_at : ℕ
  pub had_success : Bool

abbrev pub empty_cache : MetricCache
empty_cache = record { expires_at = 0; had_success = false }

abbrev pub is_fresh : Bool → ℕ → MetricCache → Bool
is_fresh force now c = not force && c.had_success && ltb now c.expires_at

-- A cached gauge of any type of values.
module _ {A : Type 0} (seconds : ℕ) where
  abbrev refreshed : ℕ → Option A → MetricCache × A → MetricCache × A
  refreshed now none state = state
  refreshed now (some v) state =
      (record { expires_at = now + seconds * second; had_success = true }, v)

  -- The body that `_collect_ready_jobs` and `_collect_payment_consistency` share.
  unfoldable pub collect : Bool → ℕ → Option A → MetricCache × A → MetricCache × A
  collect force now answer state =
      if is_fresh force now state.0 then state else refreshed now answer state

pub record Gauges : Type 0 where
  pub ready : MetricCache × (MessagePriority → Ready)
  pub payment : MetricCache × Violations

abbrev read_ready : ℕ → Option Database → Option (MessagePriority → Ready)
read_ready wall none = none
read_ready wall (some db) = some (collect_dispatch_ready_metrics wall db.jobs)

abbrev read_payment : Option Database → Option Violations
read_payment none = none
read_payment (some db) = some (collect_payment_consistency_metrics db)

-- The database as each of the two sessions finds it.
unfoldable pub collect_database_metrics :
    Bool → ℕ → ℕ → Option Database → Option Database → Gauges → Gauges
unfolding collect collect_dispatch_ready_metrics collect_payment_consistency_metrics
collect_database_metrics force now wall first second_db g = record {
  ready = collect 5 force now (read_ready wall first) g.ready;
  payment = collect 30 force now (read_payment second_db) g.payment;
}

unfoldable pub reset_database_metric_cache : Gauges → Gauges
reset_database_metric_cache g = record {
  ready = (empty_cache, g.ready.1);
  payment = (empty_cache, g.payment.1);
}

-- A scrape: whether it is forced, when it comes, and what the query answers if it is made.
pub record Scrape (A : Type 0) : Type 0 where
  pub force : Bool
  pub now : ℕ
  pub answer : Option A

module _ {A : Type 0} where
  -- Some scrape at `t` could read `v`.
  abbrev pub Took : A → ℕ → List (Scrape A) → Type 0
  Took v t [] = false ≡ true
  Took v t (x ∷ xs) = ((x.now ≡ t) × (x.answer ≡ some v)) ⊎ Took v t xs

module _ {A : Type 0} (seconds : ℕ) (start : A) where
  -- The state after the scrapes, the last one first.
  abbrev pub scraped : List (Scrape A) → MetricCache × A
  scraped [] = (empty_cache, start)
  scraped (x ∷ xs) = collect seconds x.force x.now x.answer (scraped xs)

  abbrev Dated : List (Scrape A) → MetricCache × A → Type 0
  Dated xs state =
      state.0.had_success ≡ true
      → (t : ℕ) × (state.0.expires_at ≡ t + seconds * second) × Took state.1 t xs

  later-Dated :
      (x : Scrape A) (xs : List (Scrape A)) (state : MetricCache × A)
      → Dated xs state
      → Dated (x ∷ xs) state
  later-Dated x xs state d h = let (t, e, k) = d h in (t, e, inr k)

  refreshed-Dated :
      (x : Scrape A) (xs : List (Scrape A)) (o : Option A) (state : MetricCache × A)
      → x.answer ≡ o
      → Dated xs state
      → Dated (x ∷ xs) (refreshed seconds x.now o state)
  refreshed-Dated x xs none state e d = later-Dated x xs state d
  refreshed-Dated x xs (some v) state e d = λ h. (x.now, refl, inl (refl, e))

  Dated-if :
      (b : Bool) (xs : List (Scrape A)) (y z : MetricCache × A)
      → Dated xs y
      → Dated xs z
      → Dated xs (if b then y else z)
  Dated-if true xs y z h k = h
  Dated-if false xs y z h k = k

  scraped-Dated : (xs : List (Scrape A)) → Dated xs (scraped xs)
  unfolding collect
  scraped-Dated [] = λ h. absurd (ground (arith, h))
  scraped-Dated (x ∷ xs) =
      let state = scraped xs in
      Dated-if (is_fresh x.force x.now state.0) (x ∷ xs) state
        (refreshed seconds x.now x.answer state) (later-Dated x xs state (scraped-Dated xs))
        (refreshed-Dated x xs x.answer state refl (scraped-Dated xs))

  -- The value served at `now` is one that some scrape took, at most `seconds` before.
  abbrev pub IsRecent : ℕ → List (Scrape A) → A → Type 0
  IsRecent now xs value = (t : ℕ) × (now ≤ t + seconds * second) × Took value t xs

  scraped-by_test :
      (v : A) (x : Scrape A) (xs : List (Scrape A)) (b : Bool)
      → is_fresh x.force x.now (scraped xs).0 ≡ b
      → x.answer ≡ some v
      → IsRecent x.now
          (x ∷ xs)
          (if b then scraped xs else refreshed seconds x.now x.answer (scraped xs)).1
  scraped-by_test v x xs true e h =
      let (t, f, k) = scraped-Dated xs (ground (arith, e)) in (t, ground (arith, e, f), inr k)
  scraped-by_test v x xs false e h = (x.now, omega arith, rw h (inl (refl, refl)))

-- After any scrapes, forced or not, some of which may have failed, a scrape whose query would
-- answer serves a value that some scrape could read no longer ago than the seconds of the cache.
scraped-IsRecent :
    {A : Type 0} (seconds : ℕ) (start v : A) (x : Scrape A) (xs : List (Scrape A))
    → x.answer ≡ some v
    → IsRecent seconds start x.now (x ∷ xs) (scraped seconds start (x ∷ xs)).1
unfolding collect
scraped-IsRecent seconds start v x xs h =
    scraped-by_test seconds start v x xs (is_fresh x.force x.now (scraped seconds start xs).0) refl
      h
