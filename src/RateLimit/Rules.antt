-- ===== src/RateLimit/Rules.antt =====
-- src/api/rate_limit.py: the rules, their names and numbers.
use abrio.Prelude.{ℕ, ◌*◌, Text, codes, Bool, true, false}
use abrio.Config.{Settings}

abbrev pub window_seconds : ℕ
window_seconds = 60

-- `RateLimitRule`; each rule of the source has the window `WINDOW_SECONDS`.
pub record RateLimitRule : Type 0 where
  pub name : Text
  pub limit : ℕ
  pub window : ℕ
  pub burst : ℕ

-- `ttl_milliseconds`
unfoldable pub ttl_milliseconds : RateLimitRule → ℕ
ttl_milliseconds r = r.window * 2 * 1000

abbrev rule : Text → ℕ → ℕ → RateLimitRule
rule name limit burst = record {
  name = name;
  limit = limit;
  window = window_seconds;
  burst = burst;
}

-- The test `priority == MessagePriority.EXPRESS.value` is the argument `express`.
unfoldable pub message_submission_rule : Settings → Bool → RateLimitRule
message_submission_rule s true =
    rule (codes "messages:express") s.rate_limit_express_messages_per_minute
      s.rate_limit_express_messages_burst
message_submission_rule s false =
    rule (codes "messages:normal") s.rate_limit_normal_messages_per_minute
      s.rate_limit_normal_messages_burst

unfoldable pub global_message_submission_rule : Settings → Bool → RateLimitRule
global_message_submission_rule s true =
    rule (codes "global:messages:express") s.rate_limit_global_express_messages_per_minute
      s.rate_limit_global_express_messages_burst
global_message_submission_rule s false =
    rule (codes "global:messages:normal") s.rate_limit_global_normal_messages_per_minute
      s.rate_limit_global_normal_messages_burst

unfoldable pub batch_requests_rule : Settings → RateLimitRule
batch_requests_rule s =
    rule (codes "messages:batch_requests") s.rate_limit_batch_requests_per_minute
      s.rate_limit_batch_requests_burst

unfoldable pub global_batch_requests_rule : Settings → RateLimitRule
global_batch_requests_rule s =
    rule (codes "global:messages:batch_requests") s.rate_limit_global_batch_requests_per_minute
      s.rate_limit_global_batch_requests_burst

unfoldable pub message_status_rule : Settings → RateLimitRule
message_status_rule s =
    rule (codes "messages:status") s.rate_limit_message_status_per_minute
      s.rate_limit_message_status_burst

unfoldable pub global_message_status_rule : Settings → RateLimitRule
global_message_status_rule s =
    rule (codes "global:messages:status") s.rate_limit_global_message_status_per_minute
      s.rate_limit_global_message_status_burst

unfoldable pub message_reports_rule : Settings → RateLimitRule
message_reports_rule s =
    rule (codes "messages:reports") s.rate_limit_message_reports_per_minute
      s.rate_limit_message_reports_burst

unfoldable pub global_message_reports_rule : Settings → RateLimitRule
global_message_reports_rule s =
    rule (codes "global:messages:reports") s.rate_limit_global_message_reports_per_minute
      s.rate_limit_global_message_reports_burst

unfoldable pub user_reads_rule : Settings → RateLimitRule
user_reads_rule s =
    rule (codes "users:reads") s.rate_limit_user_reads_per_minute s.rate_limit_user_reads_burst

unfoldable pub global_user_reads_rule : Settings → RateLimitRule
global_user_reads_rule s =
    rule (codes "global:users:reads") s.rate_limit_global_user_reads_per_minute
      s.rate_limit_global_user_reads_burst

unfoldable pub user_writes_rule : Settings → RateLimitRule
user_writes_rule s =
    rule (codes "users:writes") s.rate_limit_user_writes_per_minute s.rate_limit_user_writes_burst

unfoldable pub global_user_writes_rule : Settings → RateLimitRule
global_user_writes_rule s =
    rule (codes "global:users:writes") s.rate_limit_global_user_writes_per_minute
      s.rate_limit_global_user_writes_burst

unfoldable pub user_creates_rule : Settings → RateLimitRule
user_creates_rule s =
    rule (codes "users:creates") s.rate_limit_user_creates_per_minute
      s.rate_limit_user_creates_burst

unfoldable pub global_user_creates_rule : Settings → RateLimitRule
global_user_creates_rule s =
    rule (codes "global:users:creates") s.rate_limit_global_user_creates_per_minute
      s.rate_limit_global_user_creates_burst

unfoldable pub pricing_rule : Settings → RateLimitRule
pricing_rule s = rule (codes "pricing") s.rate_limit_pricing_per_minute s.rate_limit_pricing_burst

unfoldable pub global_pricing_rule : Settings → RateLimitRule
global_pricing_rule s =
    rule (codes "global:pricing") s.rate_limit_global_pricing_per_minute
      s.rate_limit_global_pricing_burst

unfoldable pub system_requests_rule : Settings → RateLimitRule
system_requests_rule s =
    rule (codes "system:requests") s.rate_limit_system_requests_per_minute
      s.rate_limit_system_requests_burst

unfoldable pub system_messages_rule : Settings → RateLimitRule
system_messages_rule s =
    rule (codes "system:messages") s.rate_limit_system_messages_per_minute
      s.rate_limit_system_messages_burst
