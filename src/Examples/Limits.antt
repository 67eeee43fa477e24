-- ===== src/Examples/Limits.antt =====
-- The rate limiter on small buckets.
use abrio.Prelude.{
  ℕ, ◌+◌, ◌-◌, ◌*◌, ◌≤◌, ◌<◌, ◌≡◌, refl, none, some, true, false, List, [], ◌∷◌, map, All, Text,
  codes, leb, arith,
}
use mathlib.Core.Option.{get_or}
use abrio.Config.{Settings, defaults}
use abrio.Metrics.{World, SubmissionType}
use abrio.RateLimit.Rules
use abrio.RateLimit.Rules.{RateLimitRule, ttl_milliseconds}
use abrio.RateLimit.Bucket.{
  Bucket, Store, Charge, run_script, first_loop, judge, refilled, alive, capacity,
}
use abrio.RateLimit.Charging.{is_short, Separate}
use abrio.RateLimit.Refill.{IsKept, alive-refilled}
use abrio.RateLimit.Rate.{Call, Orderly, total_spent, total_spent-capacity}
use abrio.RateLimit.Retry.{IsPayable}
use abrio.RateLimit.Blame.{Among, check-names}
use abrio.RateLimit.Promise.{check-retry}
use abrio.RateLimit.Resolve
use abrio.RateLimit.Limiter.{ResolvedRateLimit, charge_for, key_for, check, decide, header_bucket}
use abrio.RateLimit.Scope.{
  Json, Fields, Library, Loaded, Scope, parse_json_body, relative_api_path, get_client_identity,
  submission_type_for_scope,
}
use abrio.RateLimit.Resolve.{resolve_rate_limits}
use abrio.Config.Bounds.{valid_fields}
use abrio.RateLimit.Working.{Working, resolve_rate_limits-Working}
use abrio.RateLimit.Keys.{resolve_rate_limits-Separate}
use abrio.RateLimit.Body.{Event, some_final, read_body, sent_body}
use abrio.RateLimit.Replay.{read_body_lem}
use abrio.RateLimit.Middleware.{Answer, call, redis_limiter}
use abrio.RateLimit.Answers.{IsFaithful, charged_to, forwarded, call_lem}
use abrio.Observability.{submission_type, submission_type-agrees}
use abrio.Examples.Data.{world}

-- One token a second, and two at most.
abbrev slow : Text → RateLimitRule
slow name = record { name = name; limit = 60; window = 60; burst = 2 }

abbrev user_key : Text
user_key = codes "messages:normal:user:1"

abbrev charge : ℕ → Charge
charge cost = record { key = user_key; rule = slow (codes "messages:normal"); cost = cost }

abbrev system_charge : Charge
system_charge = record {
  key = codes "system:requests:system";
  rule = slow (codes "system:requests");
  cost = 1;
}

-- A bucket that was emptied at `now`, in microseconds.
abbrev emptied : ℕ → Bucket
emptied now = record { tokens = 0; updated_at = now; expires_at = now + 120000000 }

abbrev empty_store : ℕ → Store
empty_store now = record { key = user_key; bucket = emptied now } ∷ []

emptied-IsKept : IsKept (slow user_key) 1000000 (some (emptied 1000000))
unfolding ttl_milliseconds
emptied-IsKept = (omega arith, refl)

alive-refilled_example :
    refilled (slow user_key) 500000000 (alive 500000000 (some (emptied 1000000)))
    ≡ refilled (slow user_key) 500000000 (some (emptied 1000000))
alive-refilled_example =
    alive-refilled (slow user_key) 1000000 500000000 (some (emptied 1000000)) (omega arith)
      emptied-IsKept (omega arith)

abbrev calls : List Call
calls =
    record { at = 0; charges = charge 2 ∷ [] }
    ∷ record { at = 1000000; charges = charge 2 ∷ [] }
    ∷ record { at = 5000000; charges = charge 1 ∷ [] }
    ∷ []

calls-Orderly : Orderly user_key (slow (codes "messages:normal")) 0 6000000 calls
calls-Orderly = (
  omega arith,
  (tt, tt),
  (λ e. refl, tt),
  (omega arith, (tt, tt), (λ e. refl, tt), (omega arith, (tt, tt), (λ e. refl, tt), omega arith)),
)

total_spent-capacity_example :
    total_spent user_key calls [] ≤ capacity (slow (codes "messages:normal")) + (6000000 - 0) * 60
total_spent-capacity_example =
    total_spent-capacity user_key (slow (codes "messages:normal")) 0 6000000 calls [] (omega arith)
      tt calls-Orderly

abbrev events : List Event
events =
    Event.request (some (codes "{\"user")) true
    ∷ Event.request none true
    ∷ Event.request (some (codes "_id\":7}")) false
    ∷ Event.disconnect
    ∷ []

read_body_lem_example :
    (some_final events ≡ true
      → (rest : List Event) × (read_body events ≡ some (sent_body events, rest)))
    × (some_final events ≡ false → read_body events ≡ none)
read_body_lem_example = read_body_lem events

abbrev library : Library
library = record {
  loads = λ t.
      Loaded.loaded
        (Json.object (Fields.field (codes "user_id") (Json.integer (codes "7")) Fields.no_fields));
  parse_qs = λ t. [];
  is_decimal = λ c. leb 48 c;
}

abbrev scope : Scope
scope = record {
  method = codes "POST";
  path = codes "/api/v1/messages/";
  query_string = [];
  client = some (codes "10.0.0.1");
}

abbrev limiting : Settings
limiting = record defaults { rate_limit_enabled = true }

abbrev single_limits : List ResolvedRateLimit
single_limits = get_or (resolve_rate_limits library scope limiting (codes "{}")) []

single_found : resolve_rate_limits library scope limiting (codes "{}") ≡ some single_limits
unfolding resolve_rate_limits Resolve.resolve_found relative_api_path parse_json_body
single_found = refl

resolve_rate_limits-Separate_example : Separate (map (charge_for (codes "rl")) single_limits)
resolve_rate_limits-Separate_example =
    resolve_rate_limits-Separate library scope limiting (codes "{}") (codes "rl") single_limits
      single_found

call_lem_example :
    (a : Answer) × (w' : World) × (call library
        (redis_limiter limiting 0 0 [])
        true
        scope
        limiting
        events
        world
      ≡ some (a, w'))
    × IsFaithful
        (redis_limiter limiting 0 0 [])
        limiting
        (charged_to library true scope limiting events)
        (forwarded true scope limiting events)
        world
        a
        w'
call_lem_example =
    call_lem library (redis_limiter limiting 0 0 []) true scope limiting events world refl

resolve_rate_limits-Working_example : Working single_limits
resolve_rate_limits-Working_example =
    resolve_rate_limits-Working library scope limiting (codes "{}") single_limits
      (unfold valid_fields in refl) single_found

abbrev pricing_request : Scope
pricing_request = record scope { method = codes "get"; path = codes "/api/v1/pricing/" }

abbrev pricing_limits : List ResolvedRateLimit
pricing_limits = get_or (resolve_rate_limits library pricing_request limiting []) []

pricing_found : resolve_rate_limits library pricing_request limiting [] ≡ some pricing_limits
unfolding resolve_rate_limits Resolve.resolve_found relative_api_path parse_json_body
pricing_found = refl

-- The user's bucket was emptied at one second.
abbrev pricing_store : Store
pricing_store = record { key = codes "rl:pricing:ip:10.0.0.1"; bucket = emptied 1000000 } ∷ []

pricing-IsPayable : All IsPayable (map (charge_for (codes "rl")) pricing_limits)
unfolding resolve_rate_limits Resolve.resolve_found Resolve.resolve_path Resolve.path_cases
    Resolve.first_match Resolve.endpoint_limits Resolve.system_request_limits relative_api_path
    parse_json_body charge_for Rules.pricing_rule Rules.global_pricing_rule
    Rules.system_requests_rule
pricing-IsPayable =
    ((omega arith, omega arith), ((omega arith, omega arith), ((omega arith, omega arith), tt)))

pricing_denied :
    ((check (codes "rl") 1000000 1000000 pricing_limits pricing_store).0.allowed ≡ false)
    × ((check (codes "rl") 1000000 1000000 pricing_limits pricing_store).0.retry_after_seconds ≡ 1)
unfolding resolve_rate_limits Resolve.resolve_found Resolve.resolve_path Resolve.path_cases
    Resolve.first_match Resolve.endpoint_limits Resolve.system_request_limits relative_api_path
    parse_json_body get_client_identity charge_for key_for check decide header_bucket run_script
    first_loop judge Rules.pricing_rule Rules.global_pricing_rule Rules.system_requests_rule
pricing_denied = (refl, refl)

pricing_positive : All (λ b. 0 < b.rule.limit) pricing_limits
unfolding resolve_rate_limits Resolve.resolve_found Resolve.resolve_path Resolve.path_cases
    Resolve.first_match Resolve.endpoint_limits Resolve.system_request_limits relative_api_path
    parse_json_body Rules.pricing_rule Rules.global_pricing_rule Rules.system_requests_rule
pricing_positive = (omega arith, (omega arith, (omega arith, tt)))

check-names_example :
    let decision = (check (codes "rl") 1000000 1000000 pricing_limits pricing_store).0 in
    (b : ResolvedRateLimit) × Among b pricing_limits
    × (is_short 1000000 1000000 pricing_store (charge_for (codes "rl") b) ≡ true)
    × (decision.denied_rule_name ≡ some b.rule.name)
    × (decision.limit ≡ b.rule.limit)
check-names_example =
    check-names (codes "rl") 1000000 1000000 pricing_limits pricing_store pricing_positive
      pricing_denied.0

check-retry_example :
    (check
      (codes "rl")
      2000000
      2000000
      pricing_limits
      (check (codes "rl") 1000000 1000000 pricing_limits pricing_store).1).0.allowed
    ≡ true
check-retry_example =
    check-retry library pricing_request limiting [] (codes "rl") 1000000 1000000 2000000 2000000
      pricing_store pricing_limits pricing_found pricing-IsPayable pricing_denied.0
      (omega (arith, pricing_denied.1))

submission_type-agrees_example :
    (submission_type_for_scope scope limiting ≡ some SubmissionType.single)
    × (submission_type scope (some (codes "/api/v1/messages/")) ≡ some SubmissionType.single
        → limiting.api_prefix ≡ codes "/api")
    × (limiting.api_prefix ≡ codes "/api"
        → submission_type scope (some (codes "/api/v1/messages/")) ≡ some SubmissionType.single)
submission_type-agrees_example = submission_type-agrees scope limiting refl refl
