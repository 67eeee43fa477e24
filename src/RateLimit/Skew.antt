-- ===== src/RateLimit/Skew.antt =====
-- `_TOKEN_BUCKET_SCRIPT` of src/api/rate_limit.py when callers' clocks disagree: it stores the
-- caller's time also where that is older than the time it finds.
use abrio.Prelude.{ℕ, ◌+◌, ◌-◌, ◌*◌, ◌≤◌, ◌<◌, ◌≡◌, true, some, [], ◌∷◌, ltb, lt→ltb, arith, min}
use abrio.RateLimit.Bucket.{Bucket, Store, Charge, fetch, price, level, run_script, capacity}
use abrio.RateLimit.Rules.{ttl_milliseconds}
use abrio.RateLimit.Charging.{run_script_lem, any_short}

-- If a denied request of a caller whose clock is behind meets a live bucket, the script takes the
-- bucket back to the earlier time, and at the later time the bucket holds the refill of the
-- interval between a second time.
run_script-rewinds :
    (c : Charge) (now earlier server : ℕ) (s : Store) (b : Bucket)
    → earlier ≤ now
    → 0 < c.rule.window
    → fetch c.key s ≡ some b
    → b.updated_at ≡ now
    → server < b.expires_at
    → b.tokens < price c
    → b.tokens ≤ capacity c.rule
    → (level now server s c ≡ b.tokens)
      × (level now server (run_script earlier server (c ∷ []) s).1 c
          ≡ min (capacity c.rule) (b.tokens + (now - earlier) * c.rule.limit))
unfolding ttl_milliseconds
run_script-rewinds c now earlier server s b h pos hb eu live dear fits =
    let e1 = lt→ltb server b.expires_at live in
    let old : level now server s c ≡ b.tokens =
      let z : now - b.updated_at ≡ 0 = omega (arith, eu) in rw (hb, e1, z) (omega (arith, fits)) in
    let before : level earlier server s c ≡ b.tokens =
      let z : earlier - b.updated_at ≡ 0 = omega (arith, eu, h) in
      rw (hb, e1, z) (omega (arith, fits)) in
    let (_, written, _) = run_script_lem earlier server (c ∷ []) s (tt, tt) in
    let short : any_short earlier server s (c ∷ []) ≡ true =
      rw (before, lt→ltb b.tokens (price c) dear) in
    let w = written.0 in
    let alive_still : ltb server (server + c.rule.window * 2 * 1000 * 1000) ≡ true =
      lt→ltb server (server + c.rule.window * 2 * 1000 * 1000) (omega (arith, pos)) in
    (old, rw (w, short, before, alive_still))
