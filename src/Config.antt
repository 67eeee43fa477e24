-- ===== src/Config.antt =====
-- src/core/config.py (`Settings`): the settings that the modelled code reads, their validators and
-- their defaults. A text is the list of its code points.
pub mod Costs
pub mod Bounds
use abrio.Prelude.{
  ℕ, zero, suc, ◌+◌, ◌-◌, ◌*◌, ◌/◌, ◌%◌, ◌^◌, Bool, true, false, not, ◌||◌, Option, none, some,
  List, [], ◌∷◌, Text, codes, leb, ltb, if◌then◌else◌, map,
}
use abrio.Prelude.Texts.{same}

-- A finite `Decimal`: `mantissa / 10 ^ places`, here never negative; `negative` is its sign.
pub record Decimal : Type 0 where
  pub negative : Bool
  pub mantissa : ℕ
  pub places : ℕ

-- `v <= Decimal("0")`
abbrev pub is_not_positive : Decimal → Bool
is_not_positive v = v.negative || leb v.mantissa 0

-- `quantize(Decimal("0.01"), rounding=ROUND_HALF_DOWN)` of a positive number, in cents: to the
-- nearest, and a tie towards zero.
unfoldable pub round_half_down : ℕ → ℕ → ℕ
round_half_down mantissa divisor =
    if ltb divisor (2 * (mantissa % divisor)) then mantissa / divisor + 1 else mantissa / divisor

unfoldable pub quantize : Decimal → ℕ
unfolding round_half_down
quantize v = round_half_down (v.mantissa * 100) (10 ^ v.places)

-- `validate_cost`; `none` is the `ValueError`.
unfoldable pub validate_cost : Decimal → Option ℕ
validate_cost v = if is_not_positive v then none else some (quantize v)

pub record Settings : Type 0 where
  pub api_prefix : Text
  pub log_format : Text
  pub service_name : Option Text
  pub app_name : Text
  pub cost_per_message : ℕ
  pub cost_per_express_message : ℕ
  pub sms_provider : Text
  pub rate_limit_enabled : Bool
  pub rate_limit_fail_open : Bool
  pub rate_limit_key_prefix : Text
  pub max_messages_per_batch : ℕ
  pub relay_normal_batch_size : ℕ
  pub relay_normal_per_user_limit : ℕ
  pub relay_express_batch_size : ℕ
  pub relay_express_per_user_limit : ℕ
  pub max_delivery_attempts : ℕ
  pub express_ttl_seconds : ℕ
  pub worker_task_soft_time_limit_seconds : ℕ
  pub worker_task_time_limit_seconds : ℕ
  pub rate_limit_normal_messages_per_minute : ℕ
  pub rate_limit_normal_messages_burst : ℕ
  pub rate_limit_express_messages_per_minute : ℕ
  pub rate_limit_express_messages_burst : ℕ
  pub rate_limit_batch_requests_per_minute : ℕ
  pub rate_limit_batch_requests_burst : ℕ
  pub rate_limit_message_status_per_minute : ℕ
  pub rate_limit_message_status_burst : ℕ
  pub rate_limit_message_reports_per_minute : ℕ
  pub rate_limit_message_reports_burst : ℕ
  pub rate_limit_user_reads_per_minute : ℕ
  pub rate_limit_user_reads_burst : ℕ
  pub rate_limit_user_writes_per_minute : ℕ
  pub rate_limit_user_writes_burst : ℕ
  pub rate_limit_user_creates_per_minute : ℕ
  pub rate_limit_user_creates_burst : ℕ
  pub rate_limit_pricing_per_minute : ℕ
  pub rate_limit_pricing_burst : ℕ
  pub rate_limit_global_normal_messages_per_minute : ℕ
  pub rate_limit_global_normal_messages_burst : ℕ
  pub rate_limit_global_express_messages_per_minute : ℕ
  pub rate_limit_global_express_messages_burst : ℕ
  pub rate_limit_global_batch_requests_per_minute : ℕ
  pub rate_limit_global_batch_requests_burst : ℕ
  pub rate_limit_global_message_status_per_minute : ℕ
  pub rate_limit_global_message_status_burst : ℕ
  pub rate_limit_global_message_reports_per_minute : ℕ
  pub rate_limit_global_message_reports_burst : ℕ
  pub rate_limit_global_user_reads_per_minute : ℕ
  pub rate_limit_global_user_reads_burst : ℕ
  pub rate_limit_global_user_writes_per_minute : ℕ
  pub rate_limit_global_user_writes_burst : ℕ
  pub rate_limit_global_user_creates_per_minute : ℕ
  pub rate_limit_global_user_creates_burst : ℕ
  pub rate_limit_global_pricing_per_minute : ℕ
  pub rate_limit_global_pricing_burst : ℕ
  pub rate_limit_system_requests_per_minute : ℕ
  pub rate_limit_system_requests_burst : ℕ
  pub rate_limit_system_messages_per_minute : ℕ
  pub rate_limit_system_messages_burst : ℕ

-- `lower()` on ASCII letters.
abbrev lower_code : ℕ → ℕ
lower_code c = if leb 65 c then (if leb c 90 then c + 32 else c) else c

abbrev pub lower : Text → Text
lower = map lower_code

-- `validate_log_format`
unfoldable pub validate_log_format : Text → Option Text
validate_log_format value =
    if same (lower value) (codes "console") || same (lower value) (codes "json")
    then some (lower value)
    else none

-- `use_json_logs`
unfoldable pub use_json_logs : Settings → Bool
use_json_logs s = same (lower s.log_format) (codes "json")

-- `resolved_service_name`: an empty name is false.
unfoldable pub resolved_service_name : Option Text → Text → Text
resolved_service_name none app_name = app_name
resolved_service_name (some []) app_name = app_name
resolved_service_name (some (c ∷ cs)) app_name = c ∷ cs

-- `validate_worker_time_limits`: the settings, or the `ValueError`.
unfoldable pub validate_worker_time_limits : Settings → Option Settings
validate_worker_time_limits s =
    if leb s.worker_task_time_limit_seconds s.worker_task_soft_time_limit_seconds
    then none
    else some s

-- The defaults, with the costs of 1.00 in cents.
abbrev pub defaults : Settings
defaults = record {
  api_prefix = codes "/api";
  log_format = codes "console";
  service_name = none;
  app_name = codes "abrio-gateway";
  cost_per_message = 100;
  cost_per_express_message = 100;
  sms_provider = codes "dummy";
  rate_limit_enabled = false;
  rate_limit_fail_open = true;
  rate_limit_key_prefix = codes "sms_gateway:rate_limit";
  max_messages_per_batch = 100;
  relay_normal_batch_size = 80;
  relay_normal_per_user_limit = 20;
  relay_express_batch_size = 20;
  relay_express_per_user_limit = 5;
  max_delivery_attempts = 5;
  express_ttl_seconds = 120;
  worker_task_soft_time_limit_seconds = 30;
  worker_task_time_limit_seconds = 60;
  rate_limit_normal_messages_per_minute = 1200;
  rate_limit_normal_messages_burst = 200;
  rate_limit_express_messages_per_minute = 300;
  rate_limit_express_messages_burst = 100;
  rate_limit_batch_requests_per_minute = 120;
  rate_limit_batch_requests_burst = 20;
  rate_limit_message_status_per_minute = 2400;
  rate_limit_message_status_burst = 400;
  rate_limit_message_reports_per_minute = 240;
  rate_limit_message_reports_burst = 40;
  rate_limit_user_reads_per_minute = 600;
  rate_limit_user_reads_burst = 100;
  rate_limit_user_writes_per_minute = 60;
  rate_limit_user_writes_burst = 15;
  rate_limit_user_creates_per_minute = 20;
  rate_limit_user_creates_burst = 5;
  rate_limit_pricing_per_minute = 240;
  rate_limit_pricing_burst = 40;
  rate_limit_global_normal_messages_per_minute = 300000;
  rate_limit_global_normal_messages_burst = 30000;
  rate_limit_global_express_messages_per_minute = 75000;
  rate_limit_global_express_messages_burst = 15000;
  rate_limit_global_batch_requests_per_minute = 3000;
  rate_limit_global_batch_requests_burst = 300;
  rate_limit_global_message_status_per_minute = 120000;
  rate_limit_global_message_status_burst = 12000;
  rate_limit_global_message_reports_per_minute = 12000;
  rate_limit_global_message_reports_burst = 1200;
  rate_limit_global_user_reads_per_minute = 30000;
  rate_limit_global_user_reads_burst = 3000;
  rate_limit_global_user_writes_per_minute = 6000;
  rate_limit_global_user_writes_burst = 600;
  rate_limit_global_user_creates_per_minute = 1200;
  rate_limit_global_user_creates_burst = 120;
  rate_limit_global_pricing_per_minute = 12000;
  rate_limit_global_pricing_burst = 1200;
  rate_limit_system_requests_per_minute = 450000;
  rate_limit_system_requests_burst = 45000;
  rate_limit_system_messages_per_minute = 375000;
  rate_limit_system_messages_burst = 37500;
}
