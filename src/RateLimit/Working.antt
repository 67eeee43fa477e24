-- ===== src/RateLimit/Working.antt =====
-- The rules that valid settings give (src/core/config.py) to the limiter (src/api/rate_limit.py).
use abrio.Prelude.{
  ℕ, zero, suc, ◌+◌, ◌<◌, ◌≡◌, Bool, true, false, Option, some, List, [], ◌∷◌, ◌++◌, Text, codes,
  All, arith, subst, sym, inl, inr,
}
use abrio.Config.{Settings}
use abrio.Config.Bounds.{rates, valid_fields, valid_fields-All}
use abrio.RateLimit.Rules.{RateLimitRule}
use abrio.RateLimit.Rules
use abrio.RateLimit.Limiter.{ResolvedRateLimit}
use abrio.RateLimit.Scope.{
  Library, Scope, Fields, get_client_identity, relative_api_path, is_express, get,
  count_batch_priorities, user_identity_from_query, user_identity_from_user_path,
  user_identity_from_payload,
}
use abrio.RateLimit.Resolve

-- A rule that refills, holds a token and has a window.
abbrev pub IsWorking : RateLimitRule → Type 0
IsWorking r = (0 < r.limit) × ((0 < r.burst) × (0 < r.window))

record WorkingRules (s : Settings) : Type 0 where
  pub message_submission_express : IsWorking (Rules.message_submission_rule s true)
  pub message_submission_normal : IsWorking (Rules.message_submission_rule s false)
  pub global_message_submission_express : IsWorking (Rules.global_message_submission_rule s true)
  pub global_message_submission_normal : IsWorking (Rules.global_message_submission_rule s false)
  pub batch_requests : IsWorking (Rules.batch_requests_rule s)
  pub global_batch_requests : IsWorking (Rules.global_batch_requests_rule s)
  pub message_status : IsWorking (Rules.message_status_rule s)
  pub global_message_status : IsWorking (Rules.global_message_status_rule s)
  pub message_reports : IsWorking (Rules.message_reports_rule s)
  pub global_message_reports : IsWorking (Rules.global_message_reports_rule s)
  pub user_reads : IsWorking (Rules.user_reads_rule s)
  pub global_user_reads : IsWorking (Rules.global_user_reads_rule s)
  pub user_writes : IsWorking (Rules.user_writes_rule s)
  pub global_user_writes : IsWorking (Rules.global_user_writes_rule s)
  pub user_creates : IsWorking (Rules.user_creates_rule s)
  pub global_user_creates : IsWorking (Rules.global_user_creates_rule s)
  pub pricing : IsWorking (Rules.pricing_rule s)
  pub global_pricing : IsWorking (Rules.global_pricing_rule s)
  pub system_requests : IsWorking (Rules.system_requests_rule s)
  pub system_messages : IsWorking (Rules.system_messages_rule s)

rules : (s : Settings) → All (λ n. 0 < n) (rates s) → WorkingRules s
unfolding Rules.batch_requests_rule Rules.global_batch_requests_rule
    Rules.global_message_reports_rule Rules.global_message_status_rule
    Rules.global_message_submission_rule Rules.global_pricing_rule Rules.global_user_creates_rule
    Rules.global_user_reads_rule Rules.global_user_writes_rule Rules.message_reports_rule
    Rules.message_status_rule Rules.message_submission_rule Rules.pricing_rule
    Rules.system_messages_rule Rules.system_requests_rule Rules.user_creates_rule
    Rules.user_reads_rule Rules.user_writes_rule
rules s h = record {
  message_submission_express = (h.1.1.0, (h.1.1.1.0, omega arith));
  message_submission_normal = (h.0, (h.1.0, omega arith));
  global_message_submission_express = (
    h.1.1.1.1.1.1.1.1.1.1.1.1.1.1.1.1.1.1.1.1.0,
    (h.1.1.1.1.1.1.1.1.1.1.1.1.1.1.1.1.1.1.1.1.1.0, omega arith),
  );
  global_message_submission_normal = (
    h.1.1.1.1.1.1.1.1.1.1.1.1.1.1.1.1.1.1.0,
    (h.1.1.1.1.1.1.1.1.1.1.1.1.1.1.1.1.1.1.1.0, omega arith),
  );
  batch_requests = (h.1.1.1.1.0, (h.1.1.1.1.1.0, omega arith));
  global_batch_requests = (
    h.1.1.1.1.1.1.1.1.1.1.1.1.1.1.1.1.1.1.1.1.1.1.0,
    (h.1.1.1.1.1.1.1.1.1.1.1.1.1.1.1.1.1.1.1.1.1.1.1.0, omega arith),
  );
  message_status = (h.1.1.1.1.1.1.0, (h.1.1.1.1.1.1.1.0, omega arith));
  global_message_status = (
    h.1.1.1.1.1.1.1.1.1.1.1.1.1.1.1.1.1.1.1.1.1.1.1.1.0,
    (h.1.1.1.1.1.1.1.1.1.1.1.1.1.1.1.1.1.1.1.1.1.1.1.1.1.0, omega arith),
  );
  message_reports = (h.1.1.1.1.1.1.1.1.0, (h.1.1.1.1.1.1.1.1.1.0, omega arith));
  global_message_reports = (
    h.1.1.1.1.1.1.1.1.1.1.1.1.1.1.1.1.1.1.1.1.1.1.1.1.1.1.0,
    (h.1.1.1.1.1.1.1.1.1.1.1.1.1.1.1.1.1.1.1.1.1.1.1.1.1.1.1.0, omega arith),
  );
  user_reads = (h.1.1.1.1.1.1.1.1.1.1.0, (h.1.1.1.1.1.1.1.1.1.1.1.0, omega arith));
  global_user_reads = (
    h.1.1.1.1.1.1.1.1.1.1.1.1.1.1.1.1.1.1.1.1.1.1.1.1.1.1.1.1.0,
    (h.1.1.1.1.1.1.1.1.1.1.1.1.1.1.1.1.1.1.1.1.1.1.1.1.1.1.1.1.1.0, omega arith),
  );
  user_writes = (h.1.1.1.1.1.1.1.1.1.1.1.1.0, (h.1.1.1.1.1.1.1.1.1.1.1.1.1.0, omega arith));
  global_user_writes = (
    h.1.1.1.1.1.1.1.1.1.1.1.1.1.1.1.1.1.1.1.1.1.1.1.1.1.1.1.1.1.1.0,
    (h.1.1.1.1.1.1.1.1.1.1.1.1.1.1.1.1.1.1.1.1.1.1.1.1.1.1.1.1.1.1.1.0, omega arith),
  );
  user_creates =
      (h.1.1.1.1.1.1.1.1.1.1.1.1.1.1.0, (h.1.1.1.1.1.1.1.1.1.1.1.1.1.1.1.0, omega arith));
  global_user_creates = (
    h.1.1.1.1.1.1.1.1.1.1.1.1.1.1.1.1.1.1.1.1.1.1.1.1.1.1.1.1.1.1.1.1.0,
    (h.1.1.1.1.1.1.1.1.1.1.1.1.1.1.1.1.1.1.1.1.1.1.1.1.1.1.1.1.1.1.1.1.1.0, omega arith),
  );
  pricing =
      (h.1.1.1.1.1.1.1.1.1.1.1.1.1.1.1.1.0, (h.1.1.1.1.1.1.1.1.1.1.1.1.1.1.1.1.1.0, omega arith));
  global_pricing = (
    h.1.1.1.1.1.1.1.1.1.1.1.1.1.1.1.1.1.1.1.1.1.1.1.1.1.1.1.1.1.1.1.1.1.1.0,
    (h.1.1.1.1.1.1.1.1.1.1.1.1.1.1.1.1.1.1.1.1.1.1.1.1.1.1.1.1.1.1.1.1.1.1.1.0, omega arith),
  );
  system_requests = (
    h.1.1.1.1.1.1.1.1.1.1.1.1.1.1.1.1.1.1.1.1.1.1.1.1.1.1.1.1.1.1.1.1.1.1.1.1.0,
    (h.1.1.1.1.1.1.1.1.1.1.1.1.1.1.1.1.1.1.1.1.1.1.1.1.1.1.1.1.1.1.1.1.1.1.1.1.1.0, omega arith),
  );
  system_messages = (
    h.1.1.1.1.1.1.1.1.1.1.1.1.1.1.1.1.1.1.1.1.1.1.1.1.1.1.1.1.1.1.1.1.1.1.1.1.1.1.0,
    (
      h.1.1.1.1.1.1.1.1.1.1.1.1.1.1.1.1.1.1.1.1.1.1.1.1.1.1.1.1.1.1.1.1.1.1.1.1.1.1.1.0,
      omega arith,
    ),
  );
}

abbrev pub Working : List ResolvedRateLimit → Type 0
Working = All (λ b. IsWorking b.rule)

Working-append : (xs ys : List ResolvedRateLimit) → Working xs → Working ys → Working (xs ++ ys)
Working-append [] ys h k = k
Working-append (x ∷ xs) ys h k = (h.0, Working-append xs ys h.1 k)

counted-Working :
    (f : ℕ → List ResolvedRateLimit) (n : ℕ)
    → ((k : ℕ) → Working (f k))
    → Working (Resolve.counted f n)
counted-Working f zero h = tt
counted-Working f (suc n) h = h (suc n)

first_match-Working :
    (cases : List (Bool × List ResolvedRateLimit)) (otherwise : List ResolvedRateLimit)
    → All (λ c. Working c.1) cases
    → Working otherwise
    → Working (Resolve.first_match cases otherwise)
unfolding Resolve.first_match
first_match-Working [] otherwise h k = k
first_match-Working ((true, limits) ∷ cases) otherwise h k = h.0
first_match-Working ((false, limits) ∷ cases) otherwise h k =
    first_match-Working cases otherwise h.1 k

module _ (s : Settings) (w : WorkingRules s) where
  system-Working : Working (Resolve.system_request_limits s)
  unfolding Resolve.system_request_limits
  system-Working = (w.system_requests, tt)

  message-Working :
      (express : Bool) (i : Text) (n : ℕ) → Working (Resolve.message_limits s express i n)
  unfolding Resolve.message_limits
  message-Working true i n =
      (w.message_submission_express, (w.global_message_submission_express, tt))
  message-Working false i n =
      (w.message_submission_normal, (w.global_message_submission_normal, tt))

  system_message-Working : (n : ℕ) → Working (Resolve.system_message_limits s n)
  unfolding Resolve.system_message_limits
  system_message-Working n = (w.system_messages, tt)

  single-Working :
      (express : Bool) (i : Text)
      → Working (
          Resolve.message_limits s express i 1
          ++ (Resolve.system_message_limits s 1 ++ Resolve.system_request_limits s))
  single-Working express i =
      Working-append (Resolve.message_limits s express i 1)
        (Resolve.system_message_limits s 1 ++ Resolve.system_request_limits s)
        (message-Working express i 1)
        (Working-append (Resolve.system_message_limits s 1) (Resolve.system_request_limits s)
          (system_message-Working 1) system-Working)

  batch-Working :
      (i : Text) (normal express : ℕ) → Working (Resolve.batch_limits s i normal express)
  unfolding Resolve.batch_limits
  batch-Working i normal express = (
    w.batch_requests,
    (
      w.global_batch_requests,
      Working-append (Resolve.counted (Resolve.message_limits s false i) normal) _
          (counted-Working (Resolve.message_limits s false i) normal (message-Working false i))
          (Working-append (Resolve.counted (Resolve.message_limits s true i) express) _
            (counted-Working (Resolve.message_limits s true i) express (message-Working true i))
            (Working-append (Resolve.counted (Resolve.system_message_limits s) (normal + express)) _
              (counted-Working (Resolve.system_message_limits s) (normal + express)
                system_message-Working)
              system-Working)),
    ),
  )

  endpoint-Working :
      (r g : RateLimitRule) (i : Text)
      → IsWorking r
      → IsWorking g
      → Working (Resolve.endpoint_limits r i g s)
  unfolding Resolve.endpoint_limits
  endpoint-Working r g i h k = (h, (k, system-Working))

  cases-Working :
      (lib : Library) (scope : Scope) (path : Text) (payload : Fields)
      → All (λ c. Working c.1) (Resolve.path_cases lib s scope path payload)
  unfolding Resolve.path_cases Resolve.resolve_single_message_limits
      Resolve.resolve_batch_message_limits
  cases-Working lib scope path payload =
      let client = get_client_identity scope in
      let reader = Resolve.or_else (user_identity_from_query lib scope) client in
      let writer = Resolve.or_else (user_identity_from_user_path lib path) client in
      let sender = Resolve.or_else (user_identity_from_payload lib payload) client in
      let counts = count_batch_priorities (get (codes "messages") payload) in
      (
        single-Working (is_express (get (codes "priority") payload)) sender,
        (
          batch-Working sender counts.0 counts.1,
          (
            endpoint-Working (Rules.message_reports_rule s) (Rules.global_message_reports_rule s)
                reader w.message_reports w.global_message_reports,
            (
              endpoint-Working (Rules.message_reports_rule s) (Rules.global_message_reports_rule s)
                  reader w.message_reports w.global_message_reports,
              (
                endpoint-Working (Rules.message_status_rule s) (Rules.global_message_status_rule s)
                    reader w.message_status w.global_message_status,
                (
                  endpoint-Working (Rules.user_creates_rule s) (Rules.global_user_creates_rule s)
                      client w.user_creates w.global_user_creates,
                  (
                    endpoint-Working (Rules.user_reads_rule s) (Rules.global_user_reads_rule s)
                        client w.user_reads w.global_user_reads,
                    (
                      endpoint-Working (Rules.user_writes_rule s) (Rules.global_user_writes_rule s)
                          writer w.user_writes w.global_user_writes,
                      (
                        endpoint-Working (Rules.pricing_rule s) (Rules.global_pricing_rule s) client
                            w.pricing w.global_pricing,
                        tt,
                      ),
                    ),
                  ),
                ),
              ),
            ),
          ),
        ),
      )

  found-Working :
      (lib : Library) (scope : Scope) (body : Text) (path : Option Text)
      (bs : List ResolvedRateLimit)
      → Resolve.resolve_found lib s scope body path ≡ some bs
      → Working bs
  unfolding Resolve.resolve_path
  found-Working lib scope body path bs h =
      elim (Resolve.resolve_found-some lib s scope body path bs h) [
        | inl e ↦ subst Working (sym e) tt
        | inr (p, payload, e) ↦ subst Working (sym e) (
            first_match-Working (Resolve.path_cases lib s scope p payload)
              (Resolve.system_request_limits s) (cases-Working lib scope p payload) system-Working)
      ]

-- If the fields of the settings are within their bounds, every bucket that a request is charged
-- to, whatever its path and body, has a rule with a positive limit, a positive burst and a
-- positive window.
pub resolve_rate_limits-Working :
    (lib : Library) (scope : Scope) (s : Settings) (body : Text) (bs : List ResolvedRateLimit)
    → valid_fields s ≡ true
    → Resolve.resolve_rate_limits lib scope s body ≡ some bs
    → Working bs
unfolding Resolve.resolve_rate_limits
resolve_rate_limits-Working lib scope s body bs h e =
    found-Working s (rules s (valid_fields-All s h)) lib scope body (relative_api_path scope s) bs e
