-- ===== src/RateLimit/Rate.antt =====
-- What the script of src/api/rate_limit.py lets through over a history of calls.
use abrio.Prelude.{
  ℕ, ◌+◌, ◌-◌, ◌*◌, ◌≤◌, ◌≡◌, refl, sym, subst, ap, ◌∙◌, ◌⊎◌, inl, inr, Bool, true, false, some,
  none, Option, List, [], ◌∷◌, Text, All, All-imply, All-and, All-always, if◌then◌else◌, Bool-cases,
  arith,
}
use abrio.Prelude.Texts.{same, same→eq}
use abrio.RateLimit.Rules.{RateLimitRule, ttl_milliseconds}
use abrio.RateLimit.Bucket.{
  Bucket, Store, Charge, fetch, price, level, alive, run_script, stored, refilled, capacity,
}
use abrio.RateLimit.Charging.{
  any_short, is_short, Separate, Others, run_script_lem, run_script-denied,
}
use abrio.RateLimit.Refill.{IsKept, Outlives, refilled_later, refilled-capacity, alive-refilled}

-- One run of the script: the time, and the buckets of the request.
pub record Call : Type 0 where
  pub at : ℕ
  pub charges : List Charge

-- The parts of tokens that a request takes from the bucket under `k`, if it is let through.
abbrev pub taken : Text → List Charge → ℕ
taken k [] = 0
taken k (c ∷ cs) = (if same c.key k then price c else 0) + taken k cs

abbrev pub spent : Text → Call → Store → ℕ
spent k call s =
    if (run_script call.at call.at call.charges s).0.denied then 0 else taken k call.charges

abbrev pub after : Call → Store → Store
after call s = (run_script call.at call.at call.charges s).1

abbrev pub total_spent : Text → List Call → Store → ℕ
total_spent k [] s = 0
total_spent k (call ∷ calls) s = spent k call s + total_spent k calls (after call s)

-- The calls come in the order of their times, up to `end`, each with separate keys, and the bucket
-- under `k` always by the rule `r`.
abbrev pub Orderly : Text → RateLimitRule → ℕ → ℕ → List Call → Type 0
Orderly k r start end [] = start ≤ end
Orderly k r start end (call ∷ calls) =
    (start ≤ call.at)
    × Separate call.charges
    × All (λ c. same c.key k ≡ true → c.rule ≡ r) call.charges
    × Orderly k r call.at end calls

module _ (k : Text) (r : RateLimitRule) where
  abbrev tokens_at : ℕ → Store → ℕ
  tokens_at now s = refilled r now (alive now (fetch k s))

  -- The bucket under `k` in a list of charges with separate keys.
  taken-Others : (cs : List Charge) → Others k cs → taken k cs ≡ 0
  taken-Others [] a = refl
  taken-Others (c ∷ cs) a = rw (a.0) (omega (arith, taken-Others cs a.1))

  Others-of_same :
      (c : Charge) (cs : List Charge) → same c.key k ≡ true → Others c.key cs → Others k cs
  Others-of_same c cs e a = subst (λ x. Others x cs) (same→eq c.key k e) a

  charged :
      (P : Charge → Type 0) (cs : List Charge)
      → Separate cs
      → All P cs
      → Others k cs ⊎ ((c : Charge) × P c × (same c.key k ≡ true) × (taken k cs ≡ price c))
  charged P [] sep a = inl tt
  charged P (c ∷ cs) sep a = elim (Bool-cases (same c.key k)) [
    | inl e ↦ inr (c, a.0, e, rw (e, taken-Others cs (Others-of_same c cs e sep.0)) (omega arith))
    | inr n ↦ elim (charged P cs sep.1 a.1) [
      | inl off ↦ inl (n, off)
      | inr (x, p, e, t) ↦ inr (x, p, e, rw n (omega (arith, t)))
    ]
  ]

not_short :
    (now : ℕ) (s : Store) (cs : List Charge)
    → any_short now now s cs ≡ false
    → All (λ c. price c ≤ level now now s c) cs
not_short now s [] h = tt
not_short now s (c ∷ cs) h = elim (Bool-cases (is_short now now s c)) [
  | inl e ↦ absurd (ground (arith, h, e))
  | inr e ↦ (ground (arith, e), not_short now s cs (ground (arith, h, e)))
]

enough :
    (now : ℕ) (s : Store) (cs : List Charge)
    → All (λ c. any_short now now s cs ≡ false → price c ≤ level now now s c) cs
enough now s cs = elim (Bool-cases (any_short now now s cs)) [
  | inl e ↦
      All-always (λ c. any_short now now s cs ≡ false → price c ≤ level now now s c) cs
        (λ c n. absurd (ground (arith, e, n)))
  | inr n ↦
      All-imply (λ c. price c ≤ level now now s c)
        (λ c. any_short now now s cs ≡ false → price c ≤ level now now s c) cs (λ c h _. h)
        (not_short now s cs n)
]

IsKept-later :
    (r : RateLimitRule) (now now' : ℕ) (o : Option Bucket)
    → now ≤ now'
    → IsKept r now o
    → IsKept r now' o
IsKept-later r now now' none h k = tt
IsKept-later r now now' (some b) h k = (omega (arith, k.0, h), k.1)

no_time : (r : RateLimitRule) (now : ℕ) (x : ℕ) → x + (now - now) * r.limit ≡ x
no_time r now x = let z : now - now ≡ 0 = omega arith in rw z (omega arith)

module _ (k : Text) (r : RateLimitRule) (out : Outlives r) (call : Call) (s : Store) (prev : ℕ)
    (due : prev ≤ call.at) (kept : IsKept r prev (fetch k s)) where
  abbrev OneStep : Type 0
  OneStep =
      IsKept r call.at (fetch k (after call s))
      × (tokens_at k r call.at (after call s) + spent k call s ≤ tokens_at k r call.at s)

  verdict :
      (run_script call.at call.at call.charges s).0.denied
      ≡ any_short call.at call.at s call.charges
  verdict = run_script-denied call.at call.at call.charges s

  -- The request has no bucket under `k`.
  step_off : fetch k (after call s) ≡ fetch k s → taken k call.charges ≡ 0 → OneStep
  step_off same_bucket free = (
    subst (IsKept r call.at) (sym same_bucket) (IsKept-later r prev call.at (fetch k s) due kept),
    elim (Bool-cases (any_short call.at call.at s call.charges)) [
      | inl e ↦ rw (verdict, e, same_bucket) (omega arith)
      | inr e ↦ rw (verdict, e, same_bucket, free) (omega arith)
    ],
  )

  -- It has one.
  step_on :
      (d : Bool) (tokens cost : ℕ)
      → tokens ≡ tokens_at k r call.at s
      → (d ≡ false → cost ≤ tokens)
      → (b : Bucket) → fetch k (after call s) ≡ some b
      → b.tokens ≡ (if d then tokens else tokens - cost)
      → b.updated_at ≡ call.at
      → b.expires_at ≡ call.at + ttl_milliseconds r * 1000
      → IsKept r call.at (fetch k (after call s))
        × (tokens_at k r call.at (after call s) + (if d then 0 else cost) ≤ tokens_at k r call.at s)
  step_on d tokens cost et fits b hb eb eu ee =
      let keep : IsKept r call.at (some b) =
        (omega (arith, eu), ee ∙ ap (λ u. u + ttl_milliseconds r * 1000) (sym eu)) in
      let now_tokens : refilled r call.at (alive call.at (some b)) ≤ b.tokens =
        let z : b.tokens + (call.at - b.updated_at) * r.limit ≡ b.tokens =
          rw eu (no_time r call.at b.tokens) in
        omega (arith, alive-refilled r call.at call.at (some b) out keep (omega arith), z) in
      (
        subst (IsKept r call.at) (sym hb) keep,
        rw hb (elim (Bool-cases d) [
          | inl e ↦ rw e (omega (arith, now_tokens, (rw e at eb), et))
          | inr e ↦ rw e (omega (arith, now_tokens, (rw e at eb), et, fits e))
        ]),
      )

  step : Separate call.charges → All (λ c. same c.key k ≡ true → c.rule ≡ r) call.charges → OneStep
  step sep rules =
      let t : ℕ = call.at in
      let d = any_short t t s call.charges in
      let R : Charge → Type 0 = λ c. same c.key k ≡ true → c.rule ≡ r in
      let W : Charge → Type 0 =
        λ c. fetch c.key (after call s) ≡ some (stored t t d c (level t t s c)) in
      let F : Charge → Type 0 = λ c. d ≡ false → price c ≤ level t t s c in
      let (_, written, rest) = run_script_lem t t call.charges s sep in
      elim (charged k r (λ c. R c × (W c × F c)) call.charges sep
        (All-and R (λ c. W c × F c) call.charges rules
          (All-and W F call.charges written (enough t s call.charges)))) [
            | inl off ↦ step_off (rest k off) (taken-Others k r call.charges off)
            | inr (c, p, e, paid) ↦ rw verdict (
                let key : c.key ≡ k = same→eq c.key k e in
                let rule : c.rule ≡ r = p.0 e in
                let b = stored t t d c (level t t s c) in
                step_on d (level t t s c) (taken k call.charges)
                  (ap (λ x. refilled x t (alive t (fetch c.key s))) rule
                    ∙ ap (λ x. refilled r t (alive t (fetch x s))) key)
                  (λ f. subst (λ x. x ≤ level t t s c) (sym paid) (p.1.1 f)) b
                  (subst (λ x. fetch x (after call s) ≡ some b) key p.1.0)
                  (ap (λ x. if d then level t t s c else level t t s c - x) (sym paid)) refl
                  (ap (λ x. t + ttl_milliseconds x * 1000) rule))
          ]

Orderly-le :
    (k : Text) (r : RateLimitRule) (start end : ℕ) (calls : List Call)
    → Orderly k r start end calls
    → start ≤ end
Orderly-le k r start end [] o = o
Orderly-le k r start end (call ∷ calls) o = omega (arith, o.0, Orderly-le k r call.at end calls o.3)

-- The parts of tokens spent are at most the tokens at the start and the refill since.
total_spent-le :
    (k : Text) (r : RateLimitRule) (start end : ℕ) (calls : List Call) (s : Store)
    → Outlives r
    → IsKept r start (fetch k s)
    → Orderly k r start end calls
    → total_spent k calls s ≤ tokens_at k r start s + (end - start) * r.limit
total_spent-le k r start end [] s out kept o = omega arith
total_spent-le k r start end (call ∷ calls) s out kept (due, sep, rules, more) =
    let (kept', one) = step k r out call s start due kept sep rules in
    let rest = total_spent-le k r call.at end calls (after call s) out kept' more in
    let grown = refilled_later r start call.at (fetch k s) due in
    let split : end - start ≡ (call.at - start) + (end - call.at) =
      omega (arith, due, Orderly-le k r call.at end calls more) in
    omega (
      arith,
      one,
      rest,
      grown,
      alive-refilled r start call.at (fetch k s) out kept due,
      alive-refilled r start start (fetch k s) out kept (omega arith),
      ap (λ (x : ℕ). x * r.limit) split,
    )

-- Over any history of requests in the order of their times, by one clock, in which each request
-- has separate keys and the bucket under the key always goes by one rule whose burst is at most
-- twice its limit, the requests that are let through take from the bucket no more than a full
-- bucket and the refill of the time between. A request is let through if the script does not deny
-- it.
pub total_spent-capacity :
    (k : Text) (r : RateLimitRule) (start end : ℕ) (calls : List Call) (s : Store)
    → Outlives r
    → IsKept r start (fetch k s)
    → Orderly k r start end calls
    → total_spent k calls s ≤ capacity r + (end - start) * r.limit
total_spent-capacity k r start end calls s out kept o = omega (
  arith,
  total_spent-le k r start end calls s out kept o,
  refilled-capacity r start (alive start (fetch k s)),
)
