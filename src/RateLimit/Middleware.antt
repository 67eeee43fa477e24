-- ===== src/RateLimit/Middleware.antt =====
-- src/api/rate_limit.py: `RateLimitMiddleware.__call__`. The limiter and the events of the client are
-- arguments; the application behind the middleware is the answer `to_app`. Log lines are left out.
use abrio.Prelude.{
  ℕ, Bool, not, ◌||◌, Option, none, some, List, [], ◌∷◌, Text, codes, max, if◌then◌else◌,
}
use abrio.Prelude.Texts.{is_prefix, rstrip, lstrip}
use abrio.Config.{Settings}
use abrio.Metrics.{World, SubmissionType, RejectionReason, record_submission_rejected}
use abrio.RateLimit.Body.{Event, read_body}
use abrio.RateLimit.Bucket.{Store}
use abrio.RateLimit.Limiter.{ResolvedRateLimit, RateLimitDecision, check}
use abrio.RateLimit.Resolve.{resolve_rate_limits}
use abrio.RateLimit.Scope.{Library, Scope, request_may_need_body, submission_type_for_scope}

-- What the application receives from: the client itself, or a body that was read.
pub data Receive : Type 0 where
  original : Receive
  replay : Text → Receive

-- The headers of `rate_limited_response`.
pub record TooMany : Type 0 where
  pub retry_after : ℕ
  pub limit : ℕ
  pub remaining : ℕ

pub data Answer : Type 0 where
  to_app : Receive → Answer
  too_many_requests : TooMany → Answer
  service_unavailable : Answer
  -- An exception that the middleware does not catch.
  raised : Answer

unfoldable pub rate_limited_response : RateLimitDecision → TooMany
rate_limited_response d = record {
  retry_after = max 1 d.retry_after_seconds;
  limit = d.limit;
  remaining = d.remaining;
}

unfoldable pub rate_limit_rejection_reason : Option Text → RejectionReason
rate_limit_rejection_reason none = RejectionReason.rate_limited
rate_limit_rejection_reason (some name) =
    if is_prefix (codes "global:") name
    then RejectionReason.global_rate_limited
    else if is_prefix (codes "system:") name
    then RejectionReason.system_rate_limited
    else RejectionReason.rate_limited

abbrev pub record_for : RejectionReason → Option SubmissionType → World → World
record_for reason none w = w
record_for reason (some t) w = record_submission_rejected reason t w

unfoldable pub record_rate_limit_rejection : Scope → Settings → RejectionReason → World → World
unfolding submission_type_for_scope record_submission_rejected
record_rate_limit_rejection scope s reason w =
    record_for reason (submission_type_for_scope scope s) w

-- `RateLimiter.check`; `none` is a `RedisError`.
abbrev pub RateLimiter : Type 0
RateLimiter = List ResolvedRateLimit → Option RateLimitDecision

unfoldable pub on_error : Scope → Settings → Receive → World → Answer × World
unfolding record_rate_limit_rejection
on_error scope s receive w = if s.rate_limit_fail_open then (to_app receive, w) else (
  service_unavailable,
  record_rate_limit_rejection scope s RejectionReason.system_rate_limited w,
)

unfoldable pub on_decision :
    Scope → Settings → Receive → Option RateLimitDecision → World → Answer × World
unfolding on_error rate_limited_response rate_limit_rejection_reason
on_decision scope s receive none w = on_error scope s receive w
on_decision scope s receive (some d) w = if d.allowed then (to_app receive, w) else (
  too_many_requests (rate_limited_response d),
  record_rate_limit_rejection scope s (rate_limit_rejection_reason d.denied_rule_name) w,
)

unfoldable pub on_buckets :
    RateLimiter → Scope → Settings → Receive → List ResolvedRateLimit → World → Answer × World
unfolding on_decision
on_buckets limiter scope s receive [] w = (to_app receive, w)
on_buckets limiter scope s receive (b ∷ bs) w = on_decision scope s receive (limiter (b ∷ bs)) w

abbrev pub on_resolved :
    RateLimiter
    → Scope
    → Settings
    → Receive
    → Option (List ResolvedRateLimit)
    → World
    → Answer × World
on_resolved limiter scope s receive none w = (raised, w)
on_resolved limiter scope s receive (some bs) w = on_buckets limiter scope s receive bs w

abbrev on_body :
    Library
    → RateLimiter
    → Scope
    → Settings
    → Option (Text × List Event)
    → World
    → Option (Answer × World)
on_body lib limiter scope s none w = none
on_body lib limiter scope s (some (body, rest)) w =
    some (on_resolved limiter scope s (replay body) (resolve_rate_limits lib scope s body) w)

-- The call for a scope whose type is "http" or not. `none`: it waits for the rest of the body.
unfoldable pub call :
    Library → RateLimiter → Bool → Scope → Settings → List Event → World → Option (Answer × World)
unfolding on_buckets resolve_rate_limits request_may_need_body read_body
call lib limiter is_http scope s events w =
    if not is_http || not s.rate_limit_enabled
    then some (to_app original, w)
    else if request_may_need_body scope s
    then on_body lib limiter scope s (read_body events) w
    else some (on_resolved limiter scope s original (resolve_rate_limits lib scope s []) w)

-- `build_redis_rate_limiter` on a store that Redis holds.
unfoldable pub redis_limiter : Settings → ℕ → ℕ → Store → RateLimiter
redis_limiter s now server store buckets =
    some (check (lstrip 58 (rstrip 58 s.rate_limit_key_prefix)) now server buckets store).0
