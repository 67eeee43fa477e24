-- ===== src/Config/Bounds.antt =====
-- The bounds of the fields of `Settings` (src/core/config.py) that the model has.
use abrio.Prelude.{ℕ, ◌≡◌, ◌<◌, Bool, true, ◌&&◌, List, [], ◌∷◌, All, ltb, arith}
use abrio.Config.{Settings}

-- The fields of the rates and bursts.
abbrev pub rates : Settings → List ℕ
rates s =
    s.rate_limit_normal_messages_per_minute ∷ s.rate_limit_normal_messages_burst
    ∷ s.rate_limit_express_messages_per_minute ∷ s.rate_limit_express_messages_burst
    ∷ s.rate_limit_batch_requests_per_minute ∷ s.rate_limit_batch_requests_burst
    ∷ s.rate_limit_message_status_per_minute ∷ s.rate_limit_message_status_burst
    ∷ s.rate_limit_message_reports_per_minute ∷ s.rate_limit_message_reports_burst
    ∷ s.rate_limit_user_reads_per_minute ∷ s.rate_limit_user_reads_burst
    ∷ s.rate_limit_user_writes_per_minute ∷ s.rate_limit_user_writes_burst
    ∷ s.rate_limit_user_creates_per_minute ∷ s.rate_limit_user_creates_burst
    ∷ s.rate_limit_pricing_per_minute ∷ s.rate_limit_pricing_burst
    ∷ s.rate_limit_global_normal_messages_per_minute ∷ s.rate_limit_global_normal_messages_burst
    ∷ s.rate_limit_global_express_messages_per_minute ∷ s.rate_limit_global_express_messages_burst
    ∷ s.rate_limit_global_batch_requests_per_minute ∷ s.rate_limit_global_batch_requests_burst
    ∷ s.rate_limit_global_message_status_per_minute ∷ s.rate_limit_global_message_status_burst
    ∷ s.rate_limit_global_message_reports_per_minute ∷ s.rate_limit_global_message_reports_burst
    ∷ s.rate_limit_global_user_reads_per_minute ∷ s.rate_limit_global_user_reads_burst
    ∷ s.rate_limit_global_user_writes_per_minute ∷ s.rate_limit_global_user_writes_burst
    ∷ s.rate_limit_global_user_creates_per_minute ∷ s.rate_limit_global_user_creates_burst
    ∷ s.rate_limit_global_pricing_per_minute ∷ s.rate_limit_global_pricing_burst
    ∷ s.rate_limit_system_requests_per_minute ∷ s.rate_limit_system_requests_burst
    ∷ s.rate_limit_system_messages_per_minute ∷ s.rate_limit_system_messages_burst ∷ []

abbrev pub all_positive : List ℕ → Bool
all_positive [] = true
all_positive (n ∷ ns) = ltb 0 n && all_positive ns

-- The other fields that are above 0.
abbrev pub sizes : Settings → List ℕ
sizes s =
    s.relay_normal_batch_size ∷ s.relay_normal_per_user_limit ∷ s.relay_express_batch_size
    ∷ s.relay_express_per_user_limit ∷ s.max_delivery_attempts ∷ s.express_ttl_seconds
    ∷ s.worker_task_soft_time_limit_seconds ∷ s.worker_task_time_limit_seconds ∷ []

-- `Field(gt=0)` of each, and `Field(gt=1)` of the size of a batch.
unfoldable pub valid_fields : Settings → Bool
valid_fields s = ltb 1 s.max_messages_per_batch && all_positive (sizes s) && all_positive (rates s)

all_positive-All : (ns : List ℕ) → all_positive ns ≡ true → All (λ n. 0 < n) ns
all_positive-All [] h = tt
all_positive-All (n ∷ ns) h = (ground (arith, h), all_positive-All ns (ground (arith, h)))

split_and : (a b c : Bool) → (a && b && c) ≡ true → c ≡ true
split_and a b c h = ground arith

-- Every rate and every burst of valid settings is positive.
pub valid_fields-All : (s : Settings) → valid_fields s ≡ true → All (λ n. 0 < n) (rates s)
unfolding valid_fields
valid_fields-All s h =
    all_positive-All (rates s) (
      split_and (ltb 1 s.max_messages_per_batch) (all_positive (sizes s)) (all_positive (rates s))
        h)
