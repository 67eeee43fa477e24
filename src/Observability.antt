-- ===== src/Observability.antt =====
-- src/core/observability.py: the route of a request and what is counted of it. The route is the
-- path of the route that FastAPI matched, if there is one.
pub mod Dispatch
use mathlib.Core.List.{append_assoc, append_cancel_right}
use abrio.Prelude.{
  ℕ, ◌≡◌, refl, subst, Bool, true, false, ◌&&◌, ◌||◌, not, Option, none, some, [], ◌∷◌, ◌++◌, Text,
  codes, ◌==◌, arith, if◌then◌else◌, Bool-cases, inl, inr,
}
use abrio.Prelude.Texts.{same, same→eq, is_prefix, is_prefix-append, drop-append}
use abrio.Config.{Settings}
use abrio.Metrics.{World, SubmissionType, RejectionReason, record_submission_rejected}
use abrio.RateLimit.Scope.{Scope, api_base, relative_api_path, submission_type_for_scope}

unfoldable pub normalized_route : Option Text → Text → Text
normalized_route (some (c ∷ cs)) path = c ∷ cs
normalized_route _ path =
    if same path (codes "/metrics") then codes "/metrics" else codes "__unmatched__"

-- `_skip_request_log`
unfoldable pub skip_request_log : Text → Text → Bool
skip_request_log path route =
    same route (codes "/metrics") || is_prefix (codes "/api/v1/health/") path

abbrev type_of_route : Text → Option SubmissionType
type_of_route route =
    if same route (codes "/api/v1/messages/")
    then some SubmissionType.single
    else if same route (codes "/api/v1/messages/batch")
    then some SubmissionType.batch
    else none

-- `_submission_type_for_scope`
unfoldable pub submission_type : Scope → Option Text → Option SubmissionType
unfolding normalized_route
submission_type scope route =
    if same scope.method (codes "POST")
    then type_of_route (normalized_route route scope.path)
    else none

abbrev count_invalid : Option SubmissionType → World → World
count_invalid none w = w
count_invalid (some t) w = record_submission_rejected RejectionReason.invalid_request t w

-- `_record_validation_rejection`
unfoldable pub record_validation_rejection : Scope → Option Text → ℕ → World → World
unfolding submission_type record_submission_rejected
record_validation_rejection scope route status_code w =
    if status_code == 422 then count_invalid (submission_type scope route) w else w

relative_messages :
    (scope : Scope) (s : Settings)
    → scope.path ≡ api_base s ++ codes "/messages/"
    → relative_api_path scope s ≡ some (codes "/messages")
unfolding relative_api_path
relative_messages scope s h =
    let base = api_base s in
    let begins : is_prefix (base ++ codes "/") (base ++ codes "/messages/") ≡ true =
      subst (λ t. is_prefix (base ++ codes "/") t ≡ true)
        (append_assoc base (codes "/") (codes "messages/"))
        (is_prefix-append (base ++ codes "/") (codes "messages/")) in
    let inside : (not (same (base ++ codes "/messages/") base)
          && not (is_prefix (base ++ codes "/") (base ++ codes "/messages/")))
        ≡ false =
      ground (arith, begins) in
    rw (h, inside, drop-append base (codes "/messages/")) refl

limiter_single :
    (scope : Scope) (s : Settings)
    → scope.method ≡ codes "POST"
    → scope.path ≡ api_base s ++ codes "/messages/"
    → submission_type_for_scope scope s ≡ some SubmissionType.single
unfolding submission_type_for_scope
limiter_single scope s m h = rw (m, relative_messages scope s h) refl

normalized_found :
    (p : Text) (c : ℕ) (cs path : Text) → normalized_route (some (p ++ c ∷ cs)) path ≡ p ++ c ∷ cs
unfolding normalized_route
normalized_found [] c cs path = refl
normalized_found (a ∷ p) c cs path = refl

single_route :
    (route : Text)
    → type_of_route route ≡ some SubmissionType.single
    → route ≡ codes "/api/v1/messages/"
single_route route h = elim (Bool-cases (same route (codes "/api/v1/messages/"))) [
  | inl e ↦ same→eq route (codes "/api/v1/messages/") e
  | inr e ↦ absurd (ground (arith, e, h))
]

-- A request to submit one message under the settings' prefix is a single submission to the rate
-- limiter; the count of invalid requests takes its route for one exactly if the prefix is /api.
pub submission_type-agrees :
    (scope : Scope) (s : Settings)
    → scope.method ≡ codes "POST"
    → scope.path ≡ api_base s ++ codes "/messages/"
    → let route = some (s.api_prefix ++ codes "/v1/messages/") in
      (submission_type_for_scope scope s ≡ some SubmissionType.single)
      × (submission_type scope route ≡ some SubmissionType.single → s.api_prefix ≡ codes "/api")
      × (s.api_prefix ≡ codes "/api" → submission_type scope route ≡ some SubmissionType.single)
unfolding submission_type
submission_type-agrees scope s m h =
    let found = normalized_found s.api_prefix 47 (codes "v1/messages/") scope.path in
    (
      limiter_single scope s m h,
      rw (m, found)
          (λ e.
            append_cancel_right s.api_prefix (codes "/api") (codes "/v1/messages/")
              (single_route (s.api_prefix ++ codes "/v1/messages/") e)),
      λ e. rw (m, found, e) refl,
    )
