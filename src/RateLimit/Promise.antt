-- ===== src/RateLimit/Promise.antt =====
-- The `Retry-After` of a request (src/api/rate_limit.py): `resolve_rate_limits` and `check` together.
use abrio.Prelude.{
  ℕ, ◌+◌, ◌*◌, ◌≤◌, ◌≡◌, ap, some, true, false, not, List, [], ◌∷◌, map, All, Text, arith,
}
use abrio.Config.{Settings}
use abrio.RateLimit.Bucket.{Store}
use abrio.RateLimit.Charging.{Separate}
use abrio.RateLimit.Keys.{resolve_rate_limits-Separate}
use abrio.RateLimit.Limiter.{ResolvedRateLimit, charge_for, check, decide}
use abrio.RateLimit.Resolve.{resolve_rate_limits}
use abrio.RateLimit.Retry.{IsPayable, run_script-retry}
use abrio.RateLimit.Scope.{Library, Scope}

check-retry_from :
    (key_prefix : Text) (now server later server' : ℕ) (bs : List ResolvedRateLimit) (store : Store)
    → Separate (map (charge_for key_prefix) bs)
    → All IsPayable (map (charge_for key_prefix) bs)
    → let first = check key_prefix now server bs store in
      first.0.allowed ≡ false
      → now + first.0.retry_after_seconds * 1000000 ≤ later
      → (check key_prefix later server' bs first.1).0.allowed ≡ true
unfolding check decide
check-retry_from p now server later server' [] store sep pay denied late =
    absurd (ground (arith, denied))
check-retry_from p now server later server' (b ∷ bs) store sep pay denied late = ap not (
    run_script-retry now server later server' (map (charge_for p) (b ∷ bs)) store sep pay
      (ground (arith, denied)) late)

-- If the limiter refuses a request whose rules each have a positive limit and whose costs are at
-- most the bursts, then the same request is let through by the next check at or after the end of
-- the wait that the refusal answers, if no other request comes between.
pub check-retry :
    (lib : Library) (scope : Scope) (s : Settings) (body key_prefix : Text)
    (now server later server' : ℕ) (store : Store) (bs : List ResolvedRateLimit)
    → let first = check key_prefix now server bs store in
      resolve_rate_limits lib scope s body ≡ some bs
      → All IsPayable (map (charge_for key_prefix) bs)
      → first.0.allowed ≡ false
      → now + first.0.retry_after_seconds * 1000000 ≤ later
      → (check key_prefix later server' bs first.1).0.allowed ≡ true
check-retry lib scope s body p now server later server' store bs e =
    check-retry_from p now server later server' bs store
      (resolve_rate_limits-Separate lib scope s body p bs e)
