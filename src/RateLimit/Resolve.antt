-- ===== src/RateLimit/Resolve.antt =====
-- src/api/rate_limit.py: `resolve_rate_limits`, the buckets of each request.
use abrio.Prelude.{
  ℕ, zero, suc, ◌+◌, Bool, true, false, ◌&&◌, ◌||◌, Option, none, some, List, [], ◌∷◌, ◌++◌, Text,
  codes, if◌then◌else◌, ◌≡◌, ◌⊎◌, inl, inr, Bool-cases, Option-cases, arith,
}
use mathlib.Core.Option
use abrio.Prelude.Texts.{same, is_prefix}
use abrio.Config.{Settings}
use abrio.RateLimit.Rules
use abrio.RateLimit.Rules.{RateLimitRule}
use abrio.RateLimit.Limiter.{ResolvedRateLimit}
use abrio.RateLimit.Scope.{
  Fields, Library, Scope, get, count_batch_priorities, get_client_identity, is_express, is_method,
  parse_json_body, relative_api_path, user_identity_from_payload, user_identity_from_query,
  user_identity_from_user_path,
}

abbrev pub global_identity : Text
global_identity = codes "global"

abbrev pub system_identity : Text
system_identity = codes "system"

abbrev pub limited : RateLimitRule → Text → ℕ → ResolvedRateLimit
limited rule identity cost = record { rule = rule; identity = identity; cost = cost }

-- `identity or fallback`; an identity is never empty.
abbrev pub or_else : Option Text → Text → Text
or_else none fallback = fallback
or_else (some identity) fallback = identity

unfoldable pub system_request_limits : Settings → List ResolvedRateLimit
system_request_limits s = limited (Rules.system_requests_rule s) system_identity 1 ∷ []

unfoldable pub endpoint_limits :
    RateLimitRule → Text → RateLimitRule → Settings → List ResolvedRateLimit
unfolding system_request_limits
endpoint_limits rule identity global_rule s =
    limited rule identity 1 ∷ limited global_rule global_identity 1 ∷ system_request_limits s

-- `message_limits`, for a priority that is express or not, up to its two optional parts.
unfoldable pub message_limits : Settings → Bool → Text → ℕ → List ResolvedRateLimit
message_limits s express identity cost =
    limited (Rules.message_submission_rule s express) identity cost
    ∷ limited (Rules.global_message_submission_rule s express) global_identity cost
    ∷ []

unfoldable pub system_message_limits : Settings → ℕ → List ResolvedRateLimit
system_message_limits s cost = limited (Rules.system_messages_rule s) system_identity cost ∷ []

unfoldable pub resolve_single_message_limits :
    Library → Settings → Fields → Text → List ResolvedRateLimit
unfolding message_limits system_message_limits system_request_limits
resolve_single_message_limits lib s payload fallback =
    message_limits s (is_express (get (codes "priority") payload))
      (or_else (user_identity_from_payload lib payload) fallback) 1
    ++ (system_message_limits s 1 ++ system_request_limits s)

-- The limits that are there only for a positive count.
abbrev pub counted : (ℕ → List ResolvedRateLimit) → ℕ → List ResolvedRateLimit
counted f zero = []
counted f (suc n) = f (suc n)

unfoldable pub batch_limits : Settings → Text → ℕ → ℕ → List ResolvedRateLimit
unfolding message_limits system_message_limits system_request_limits
batch_limits s identity normal express =
    limited (Rules.batch_requests_rule s) identity 1
    ∷ limited (Rules.global_batch_requests_rule s) global_identity 1
    ∷ (counted (message_limits s false identity) normal
        ++ (counted (message_limits s true identity) express
            ++ (counted (system_message_limits s) (normal + express) ++ system_request_limits s)))

unfoldable pub resolve_batch_message_limits :
    Library → Settings → Fields → Text → List ResolvedRateLimit
unfolding batch_limits
resolve_batch_message_limits lib s payload fallback =
    let counts = count_batch_priorities (get (codes "messages") payload) in
    batch_limits s (or_else (user_identity_from_payload lib payload) fallback) counts.0 counts.1

-- The answer of the first test that holds: a chain of `if ...: return`.
unfoldable pub first_match :
    List (Bool × List ResolvedRateLimit) → List ResolvedRateLimit → List ResolvedRateLimit
first_match [] otherwise = otherwise
first_match ((test, limits) ∷ cases) otherwise =
    if test then limits else first_match cases otherwise

-- The endpoints, in the order of the tests.
unfoldable pub path_cases :
    Library → Settings → Scope → Text → Fields → List (Bool × List ResolvedRateLimit)
unfolding resolve_single_message_limits resolve_batch_message_limits endpoint_limits
path_cases lib s scope path payload =
    let get_request = is_method (codes "GET") scope in
    let post_request = is_method (codes "POST") scope in
    let client = get_client_identity scope in
    let reader = or_else (user_identity_from_query lib scope) client in
    let writer = or_else (user_identity_from_user_path lib path) client in
    (
      post_request && same path (codes "/messages"),
      resolve_single_message_limits lib s payload client,
    )
    ∷ (
      post_request && same path (codes "/messages/batch"),
      resolve_batch_message_limits lib s payload client,
    )
    ∷ (
      get_request && same path (codes "/messages/summary"),
      endpoint_limits (Rules.message_reports_rule s) reader (Rules.global_message_reports_rule s) s,
    )
    ∷ (
      get_request && same path (codes "/messages"),
      endpoint_limits (Rules.message_reports_rule s) reader (Rules.global_message_reports_rule s) s,
    )
    ∷ (
      get_request && is_prefix (codes "/messages/") path,
      endpoint_limits (Rules.message_status_rule s) reader (Rules.global_message_status_rule s) s,
    )
    ∷ (
      post_request && same path (codes "/users"),
      endpoint_limits (Rules.user_creates_rule s) client (Rules.global_user_creates_rule s) s,
    )
    ∷ (
      get_request && (same path (codes "/users") || is_prefix (codes "/users/") path),
      endpoint_limits (Rules.user_reads_rule s) client (Rules.global_user_reads_rule s) s,
    )
    ∷ (
      post_request && is_prefix (codes "/users/") path,
      endpoint_limits (Rules.user_writes_rule s) writer (Rules.global_user_writes_rule s) s,
    )
    ∷ (
      get_request && same path (codes "/pricing"),
      endpoint_limits (Rules.pricing_rule s) client (Rules.global_pricing_rule s) s,
    )
    ∷ []

unfoldable pub resolve_path : Library → Settings → Scope → Text → Fields → List ResolvedRateLimit
unfolding path_cases first_match system_request_limits
resolve_path lib s scope path payload =
    first_match (path_cases lib s scope path payload) (system_request_limits s)

-- The health checks are free. `none`: an exception of `json.loads` that nothing catches.
unfoldable pub resolve_found :
    Library → Settings → Scope → Text → Option Text → Option (List ResolvedRateLimit)
unfolding resolve_path
resolve_found lib s scope body none = some []
resolve_found lib s scope body (some path) =
    if is_prefix (codes "/health/") path
    then some []
    else Option.map (resolve_path lib s scope path) (parse_json_body lib body)

-- The buckets of a request are none, or those of a path and a payload.
pub resolve_found-some :
    (lib : Library) (s : Settings) (scope : Scope) (body : Text) (path : Option Text)
    (bs : List ResolvedRateLimit)
    → resolve_found lib s scope body path ≡ some bs
    → (bs ≡ []) ⊎ ((p : Text) × (payload : Fields) × (bs ≡ resolve_path lib s scope p payload))
unfolding resolve_found
resolve_found-some lib s scope body none bs h = inl (ground arith)
resolve_found-some lib s scope body (some path) bs h =
    elim (Bool-cases (is_prefix (codes "/health/") path)) [
      | inl free ↦ inl (ground (arith, free))
      | inr charged ↦ elim (Option-cases (parse_json_body lib body)) [
        | inl failed ↦ absurd (ground (arith, charged, failed))
        | inr (payload, e) ↦ inr (path, payload, ground (arith, charged, e))
      ]
    ]

unfoldable pub resolve_rate_limits :
    Library → Scope → Settings → Text → Option (List ResolvedRateLimit)
unfolding resolve_found
resolve_rate_limits lib scope s body = resolve_found lib s scope body (relative_api_path scope s)
