-- ===== src/RateLimit/Answers.antt =====
-- What the middleware answers (src/api/rate_limit.py, `RateLimitMiddleware.__call__`).
use abrio.Prelude.{
  ◌≡◌, refl, inl, inr, Bool, true, false, ◌||◌, not, Option, none, some, List, [], ◌∷◌, Bool-cases,
  if◌then◌else◌, ◌⊎◌,
}
use abrio.Config.{Settings}
use abrio.Metrics.{World, SubmissionType, RejectionReason, record_submission_rejected}
use abrio.RateLimit.Body.{Event, some_final, sent_body}
use abrio.RateLimit.Limiter.{ResolvedRateLimit, RateLimitDecision}
use abrio.RateLimit.Middleware
use abrio.RateLimit.Middleware.{
  Receive, TooMany, Answer, RateLimiter, record_for, record_rate_limit_rejection,
}
use abrio.RateLimit.Replay.{read_body_lem}
use abrio.RateLimit.Resolve.{resolve_rate_limits}
use abrio.RateLimit.Scope.{Library, Scope, request_may_need_body, submission_type_for_scope}

-- What the application is to receive from: the client, or the body that the client sent, if it was
-- read.
abbrev pub forwarded : Bool → Scope → Settings → List Event → Receive
forwarded is_http scope s events =
    if not is_http || not s.rate_limit_enabled
    then Receive.original
    else if request_may_need_body scope s
    then Receive.replay (sent_body events)
    else Receive.original

-- The buckets that the request is charged to: none of a request that is not limited; `none`, if the
-- reading of its payload raises.
abbrev pub charged_to :
    Library → Bool → Scope → Settings → List Event → Option (List ResolvedRateLimit)
charged_to lib is_http scope s events =
    if not is_http || not s.rate_limit_enabled
    then some []
    else if request_may_need_body scope s
    then resolve_rate_limits lib scope s (sent_body events)
    else resolve_rate_limits lib scope s []

-- The limiter's word on the request's own buckets.
abbrev pub Asked : RateLimiter → Option (List ResolvedRateLimit) → Option RateLimitDecision → Type 0
Asked limiter charged o = (bs : List ResolvedRateLimit) × (charged ≡ some bs) × (limiter bs ≡ o)

-- Why a request is passed on: it is charged to no bucket, the limiter allows it, or the limiter
-- fails and the settings fail open.
abbrev pub Passed : RateLimiter → Settings → Option (List ResolvedRateLimit) → Type 0
Passed limiter s charged =
    (charged ≡ some [])
    ⊎ (((d : RateLimitDecision) × Asked limiter charged (some d) × (d.allowed ≡ true))
        ⊎ (Asked limiter charged none × (s.rate_limit_fail_open ≡ true)))

-- Why a request is refused.
abbrev pub Refused : RateLimiter → Option (List ResolvedRateLimit) → TooMany → Type 0
Refused limiter charged t =
    (d : RateLimitDecision) × Asked limiter charged (some d)
    × (d.allowed ≡ false)
    × (t ≡ Middleware.rate_limited_response d)

-- What an answer says of the limiter and of the world before it and after it.
abbrev pub IsFaithful :
    RateLimiter
    → Settings
    → Option (List ResolvedRateLimit)
    → Receive
    → World
    → Answer
    → World
    → Type 0
IsFaithful limiter s charged expected w (Answer.to_app r) w' =
    Passed limiter s charged × (r ≡ expected) × (w' ≡ w)
IsFaithful limiter s charged expected w (Answer.too_many_requests t) w' =
    Refused limiter charged t × (w'.db ≡ w.db)
IsFaithful limiter s charged expected w Answer.service_unavailable w' =
    Asked limiter charged none × (s.rate_limit_fail_open ≡ false) × (w'.db ≡ w.db)
IsFaithful limiter s charged expected w Answer.raised w' = (charged ≡ none) × (w' ≡ w)

record_for-db :
    (reason : RejectionReason) (t : Option SubmissionType) (w : World)
    → (record_for reason t w).db ≡ w.db
unfolding record_submission_rejected
record_for-db reason none w = refl
record_for-db reason (some t) w = refl

rejection-db :
    (scope : Scope) (s : Settings) (reason : RejectionReason) (w : World)
    → (record_rate_limit_rejection scope s reason w).db ≡ w.db
unfolding record_rate_limit_rejection
rejection-db scope s reason w = record_for-db reason (submission_type_for_scope scope s) w

module _ (limiter : RateLimiter) (scope : Scope) (s : Settings)
    (charged : Option (List ResolvedRateLimit)) (expected : Receive) (w : World) where
  abbrev Good : Answer × World → Type 0
  Good x = IsFaithful limiter s charged expected w x.0 x.1

  if-Good :
      (b : Bool) (x y : Answer × World)
      → (b ≡ true → Good x)
      → (b ≡ false → Good y)
      → Good (if b then x else y)
  if-Good true x y h k = h refl
  if-Good false x y h k = k refl

  on_decision-Good :
      (r : Receive) (bs : List ResolvedRateLimit) (o : Option RateLimitDecision)
      → r ≡ expected
      → charged ≡ some bs
      → limiter bs ≡ o
      → Good (Middleware.on_decision scope s r o w)
  unfolding Middleware.on_decision Middleware.on_error
  on_decision-Good r bs none p k h =
      if-Good s.rate_limit_fail_open (Answer.to_app r, w)
        (
          Answer.service_unavailable,
          record_rate_limit_rejection scope s RejectionReason.system_rate_limited w,
        )
        (λ e. (inr (inr ((bs, k, h), e)), p, refl))
        (λ e. ((bs, k, h), e, rejection-db scope s RejectionReason.system_rate_limited w))
  on_decision-Good r bs (some d) p k h =
      let reason = Middleware.rate_limit_rejection_reason d.denied_rule_name in
      if-Good d.allowed (Answer.to_app r, w)
        (
          Answer.too_many_requests (Middleware.rate_limited_response d),
          record_rate_limit_rejection scope s reason w,
        )
        (λ e. (inr (inl (d, (bs, k, h), e)), p, refl))
        (λ e. ((d, (bs, k, h), e, refl), rejection-db scope s reason w))

  on_buckets-Good :
      (r : Receive) (bs : List ResolvedRateLimit)
      → r ≡ expected
      → charged ≡ some bs
      → Good (Middleware.on_buckets limiter scope s r bs w)
  unfolding Middleware.on_buckets
  on_buckets-Good r [] p k = (inl k, p, refl)
  on_buckets-Good r (b ∷ bs) p k = on_decision-Good r (b ∷ bs) (limiter (b ∷ bs)) p k refl

  on_resolved-Good :
      (r : Receive) (o : Option (List ResolvedRateLimit))
      → r ≡ expected
      → charged ≡ o
      → Good (Middleware.on_resolved limiter scope s r o w)
  on_resolved-Good r none p k = (k, refl)
  on_resolved-Good r (some bs) p k = on_buckets-Good r bs p k

-- If a final event of the client's body comes, the middleware ends. It passes the request on only
-- if the request is charged to no bucket, or the limiter, asked on the request's own buckets,
-- allows it, or fails where the settings fail open; then with exactly the body that the client
-- sent where the middleware reads it and the client's own events otherwise, and the world
-- unchanged. It answers 429 only after a decision on these buckets that does not allow the
-- request, with the numbers of that decision; 503 only after an error of the limiter where the
-- settings do not fail open; and raises only what the reading of the payload raises. A refusal
-- leaves the database as it was.
pub call_lem :
    (lib : Library) (limiter : RateLimiter) (is_http : Bool) (scope : Scope) (s : Settings)
    (events : List Event) (w : World)
    → some_final events ≡ true
    → (a : Answer) × (w' : World) × (Middleware.call lib limiter is_http scope s events w
        ≡ some (a, w'))
      × IsFaithful limiter s
          (charged_to lib is_http scope s events)
          (forwarded is_http scope s events)
          w
          a
          w'
unfolding Middleware.call
call_lem lib limiter is_http scope s events w h =
    elim (Bool-cases (not is_http || not s.rate_limit_enabled)) [
      | inl e ↦ (Answer.to_app Receive.original, w, rw e refl, (inl (rw e refl), rw e refl, refl))
      | inr e ↦ elim (Bool-cases (request_may_need_body scope s)) [
        | inl f ↦
            let body = sent_body events in
            let (rest, g) = (read_body_lem events).0 h in
            let x =
              Middleware.on_resolved limiter scope s (Receive.replay body)
                (resolve_rate_limits lib scope s body) w in
            (
              x.0,
              x.1,
              rw (e, f, g) refl,
              on_resolved-Good limiter scope s (charged_to lib is_http scope s events)
                  (forwarded is_http scope s events) w (Receive.replay body)
                  (resolve_rate_limits lib scope s body) (rw (e, f) refl) (rw (e, f) refl),
            )
        | inr f ↦
            let x =
              Middleware.on_resolved limiter scope s Receive.original
                (resolve_rate_limits lib scope s []) w in
            (
              x.0,
              x.1,
              rw (e, f) refl,
              on_resolved-Good limiter scope s (charged_to lib is_http scope s events)
                  (forwarded is_http scope s events) w Receive.original
                  (resolve_rate_limits lib scope s []) (rw (e, f) refl) (rw (e, f) refl),
            )
      ]
    ]
