-- ===== src/RateLimit/Bucket.antt =====
-- src/api/rate_limit.py: `_TOKEN_BUCKET_SCRIPT`, which Redis runs as one step, on exact numbers. A
-- token is divided into as many parts as the window has microseconds, so that each microsecond refills
-- `limit` parts and every sum stays whole. `now` is the caller's clock; keys expire by the clock
-- `server` of Redis. Both are in microseconds.
use abrio.Prelude.{
  ℕ, suc, ◌+◌, ◌-◌, ◌*◌, ◌/◌, min, Bool, true, false, Option, none, some, List, [], ◌∷◌, Text, ltb,
  if◌then◌else◌,
}
use abrio.Prelude.Division.{ceil_div}
use abrio.Prelude.Texts.{same}
use abrio.RateLimit.Rules.{RateLimitRule, ttl_milliseconds}

-- The hash under a key: `tokens`, `updated_at`, and the time of `PEXPIRE`.
pub record Bucket : Type 0 where
  pub tokens : ℕ
  pub updated_at : ℕ
  pub expires_at : ℕ

pub record Entry : Type 0 where
  pub key : Text
  pub bucket : Bucket

abbrev pub Store : Type 0
Store = List Entry

-- The arguments of one bucket: its key, its rule and its cost.
pub record Charge : Type 0 where
  pub key : Text
  pub rule : RateLimitRule
  pub cost : ℕ

-- `HMGET`: an expired key is gone.
abbrev live : ℕ → Bucket → Option Bucket
live server b = if ltb server b.expires_at then some b else none

abbrev pub fetch : Text → Store → Option Bucket
fetch key [] = none
fetch key (e ∷ es) = if same e.key key then some e.bucket else fetch key es

abbrev pub alive : ℕ → Option Bucket → Option Bucket
alive server none = none
alive server (some b) = live server b

-- `HSET` and `PEXPIRE`
abbrev pub put : Text → Bucket → Store → Store
put key b [] = record { key = key; bucket = b } ∷ []
put key b (e ∷ es) =
    if same e.key key then record { key = key; bucket = b } ∷ es else e ∷ put key b es

-- The parts of a token.
abbrev pub token : RateLimitRule → ℕ
token r = r.window * 1000000

abbrev pub capacity : RateLimitRule → ℕ
capacity r = r.burst * token r

abbrev pub price : Charge → ℕ
price c = c.cost * token c.rule

-- The tokens at `now`: those of the bucket with what has been refilled since, or a full bucket.
abbrev pub refilled : RateLimitRule → ℕ → Option Bucket → ℕ
refilled r now none = capacity r
refilled r now (some b) = min (capacity r) (b.tokens + (now - b.updated_at) * r.limit)

abbrev pub level : ℕ → ℕ → Store → Charge → ℕ
level now server s c = refilled c.rule now (alive server (fetch c.key s))

-- `math.ceil((cost - tokens) / rate)`, in seconds.
abbrev pub wait : Charge → ℕ → ℕ
wait c tokens = ceil_div (price c - tokens) (1000000 * c.rule.limit)

-- The variables that the first loop carries. `min_remaining` is rounded down at each bucket, as
-- the script rounds the least of them.
pub record Verdict : Type 0 where
  pub denied : Bool
  pub denied_index : ℕ
  pub retry_after : ℕ
  pub min_remaining : Option ℕ

abbrev pub least : Option ℕ → ℕ → Option ℕ
least none n = some n
least (some m) n = if ltb n m then some n else some m

-- The body of the first loop at a bucket that lacks tokens, and at one that does not.
abbrev pub deny : ℕ → Charge → ℕ → Verdict → Verdict
deny i c tokens v = record {
  denied = true;
  denied_index = if ltb v.retry_after (wait c tokens) then i else v.denied_index;
  retry_after = if ltb v.retry_after (wait c tokens) then wait c tokens else v.retry_after;
  min_remaining = least v.min_remaining (tokens / token c.rule);
}

abbrev pub admit : Charge → ℕ → Verdict → Verdict
admit c tokens v = record v {
  min_remaining = least v.min_remaining ((tokens - price c) / token c.rule);
}

unfoldable pub judge : ℕ → Charge → ℕ → Verdict → Verdict
judge i c tokens v = if ltb tokens (price c) then deny i c tokens v else admit c tokens v

unfoldable pub first_loop : ℕ → ℕ → Store → ℕ → List Charge → Verdict → Verdict
unfolding judge
first_loop now server s i [] v = v
first_loop now server s i (c ∷ cs) v =
    first_loop now server s (suc i) cs (judge i c (level now server s c) v)

-- What the second loop writes for a bucket whose tokens the first loop found.
abbrev pub left : Bool → Charge → ℕ → ℕ
left denied c tokens = if denied then tokens else tokens - price c

abbrev pub stored : ℕ → ℕ → Bool → Charge → ℕ → Bucket
stored now server denied c tokens = record {
  tokens = left denied c tokens;
  updated_at = now;
  expires_at = server + ttl_milliseconds c.rule * 1000;
}

-- `s` is the store that the first loop read.
unfoldable pub second_loop : ℕ → ℕ → Bool → Store → List Charge → Store → Store
unfolding ttl_milliseconds
second_loop now server denied s [] out = out
second_loop now server denied s (c ∷ cs) out =
    second_loop now server denied s cs
      (put c.key (stored now server denied c (level now server s c)) out)

abbrev pub begin : Verdict
begin = record { denied = false; denied_index = 0; retry_after = 0; min_remaining = none }

unfoldable pub run_script : ℕ → ℕ → List Charge → Store → Verdict × Store
unfolding first_loop second_loop
run_script now server cs s =
    let v = first_loop now server s 1 cs begin in (v, second_loop now server v.denied s cs s)
