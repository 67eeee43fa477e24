-- ===== src/RateLimit/Limiter.antt =====
-- src/api/rate_limit.py: `RedisTokenBucketRateLimiter`.
use abrio.Prelude.{
  ℕ, zero, suc, Bool, true, not, Option, none, some, List, [], ◌∷◌, ◌++◌, map, Text, codes,
  if◌then◌else◌,
}
use abrio.RateLimit.Rules.{RateLimitRule}
use abrio.RateLimit.Bucket.{Store, Charge, Verdict, run_script}

pub record ResolvedRateLimit : Type 0 where
  pub rule : RateLimitRule
  pub identity : Text
  pub cost : ℕ

pub record RateLimitDecision : Type 0 where
  pub allowed : Bool
  pub limit : ℕ
  pub remaining : ℕ
  pub retry_after_seconds : ℕ
  pub denied_rule_name : Option Text

-- `_key_for`; the prefix has been stripped of colons.
unfoldable pub key_for : Text → ResolvedRateLimit → Text
key_for key_prefix b = key_prefix ++ codes ":" ++ (b.rule.name ++ codes ":" ++ b.identity)

unfoldable pub charge_for : Text → ResolvedRateLimit → Charge
unfolding key_for
charge_for key_prefix b = record { key = key_for key_prefix b; rule = b.rule; cost = b.cost }

-- `buckets[denied_index]` for the script's index, which counts from 1, and `buckets[0]` for 0.
unfoldable pub header_bucket : ℕ → ResolvedRateLimit → List ResolvedRateLimit → ResolvedRateLimit
header_bucket zero b bs = b
header_bucket (suc zero) b bs = b
header_bucket (suc (suc i)) b [] = b
header_bucket (suc (suc i)) b (c ∷ cs) = header_bucket (suc i) c cs

abbrev remaining_of : Option ℕ → ℕ
remaining_of none = 0
remaining_of (some n) = n

unfoldable pub decide : Verdict → ResolvedRateLimit → RateLimitDecision
decide v header = record {
  allowed = not v.denied;
  limit = header.rule.limit;
  remaining = remaining_of v.min_remaining;
  retry_after_seconds = v.retry_after;
  denied_rule_name = if v.denied then some header.rule.name else none;
}

abbrev pub free_pass : RateLimitDecision
free_pass = record {
  allowed = true;
  limit = 0;
  remaining = 0;
  retry_after_seconds = 0;
  denied_rule_name = none;
}

-- `check`
unfoldable pub check : Text → ℕ → ℕ → List ResolvedRateLimit → Store → RateLimitDecision × Store
unfolding charge_for header_bucket decide
check key_prefix now server [] s = (free_pass, s)
check key_prefix now server (b ∷ bs) s =
    let (v, s') = run_script now server (map (charge_for key_prefix) (b ∷ bs)) s in
    (decide v (header_bucket v.denied_index b bs), s')
