-- ===== src/RateLimit/Retry.antt =====
-- The `Retry-After` of src/api/rate_limit.py, and the requests for which no wait helps.
use native.Mathlib.Nat.{mul-le-mul_right}
use abrio.Prelude.{
  ℕ, suc, ◌+◌, ◌-◌, ◌*◌, ◌≤◌, ◌<◌, ◌≡◌, refl, sym, subst, ◌∙◌, inl, inr, Bool, true, false, ◌||◌,
  some, List, [], ◌∷◌, ◌++◌, All, All-imply, All-and, Bool-cases, arith, min, ltb, ltb→lt, lt→ltb,
}
use abrio.Prelude.Division.{ceil_div-le}
use abrio.RateLimit.Bucket.{
  Store, Charge, Verdict, fetch, price, level, alive, run_script, stored, capacity, token, wait,
  judge, first_loop, begin,
}
use abrio.RateLimit.Refill.{refilled-capacity}
use abrio.RateLimit.Charging.{any_short, is_short, Separate, run_script-denied, run_script_lem}

not_ltb : (a b : ℕ) → ltb a b ≡ false → b ≤ a
not_ltb a b h = ground (arith, h)

judge-retry_after :
    (i : ℕ) (c : Charge) (tokens : ℕ) (v : Verdict)
    → (v.retry_after ≤ (judge i c tokens v).retry_after)
      × (ltb tokens (price c) ≡ true → wait c tokens ≤ (judge i c tokens v).retry_after)
unfolding judge
judge-retry_after i c tokens v = elim (Bool-cases (ltb tokens (price c))) [
  | inl e ↦ elim (Bool-cases (ltb v.retry_after (wait c tokens))) [
    | inl more ↦
        rw (e, more) (omega (arith, ltb→lt v.retry_after (wait c tokens) more), λ h. omega arith)
    | inr less ↦ rw (e, less) (omega arith, λ h. not_ltb v.retry_after (wait c tokens) less)
  ]
  | inr e ↦ rw e (omega arith, λ h. absurd (ground arith))
]

module _ (now server : ℕ) (s : Store) where
  grows :
      (i : ℕ) (cs : List Charge) (v : Verdict)
      → v.retry_after ≤ (first_loop now server s i cs v).retry_after
  unfolding first_loop
  grows i [] v = omega arith
  grows i (c ∷ cs) v = omega (
    arith,
    (judge-retry_after i c (level now server s c) v).0,
    grows (suc i) cs (judge i c (level now server s c) v),
  )

  covers :
      (i : ℕ) (cs : List Charge) (v : Verdict)
      → All
          (λ c.
            is_short now server s c ≡ true
            → wait c (level now server s c) ≤ (first_loop now server s i cs v).retry_after)
          cs
  unfolding first_loop
  covers i [] v = tt
  covers i (c ∷ cs) v = (
    λ h. omega (
      arith,
      (judge-retry_after i c (level now server s c) v).1 h,
      grows (suc i) cs (judge i c (level now server s c) v),
    ),
    covers (suc i) cs (judge i c (level now server s c) v),
  )

-- A bucket that the denied call stored has its price after the wait.
refilled_by_then :
    (c : Charge) (tokens e : ℕ)
    → 0 < c.rule.limit
    → c.cost ≤ c.rule.burst
    → wait c tokens * 1000000 ≤ e
    → price c ≤ min (capacity c.rule) (tokens + e * c.rule.limit)
refilled_by_then c tokens e pos fits late =
    let l = c.rule.limit in
    let fit : price c ≤ capacity c.rule = mul-le-mul_right (token c.rule) fits in
    let one : price c - tokens ≤ wait c tokens * (1000000 * l) =
      ceil_div-le (price c - tokens) (1000000 * l) (omega (arith, pos)) in
    let two : (wait c tokens * 1000000) * l ≤ e * l = mul-le-mul_right l late in
    omega (arith, fit, one, two)

enough_by_then :
    (c : Charge) (tokens e : ℕ)
    → c.cost ≤ c.rule.burst
    → price c ≤ tokens
    → price c ≤ min (capacity c.rule) (tokens + e * c.rule.limit)
enough_by_then c tokens e fits has =
    let fit : price c ≤ capacity c.rule = mul-le-mul_right (token c.rule) fits in
    omega (arith, fit, has)

not_short_of_le : (a b : ℕ) → b ≤ a → ltb a b ≡ false
not_short_of_le a b h = ground (arith, h)

-- Expired or not, the bucket stored at `now` has the price at `later`.
level-stored :
    (now server later server' : ℕ) (c : Charge) (tokens : ℕ) (s' : Store)
    → c.cost ≤ c.rule.burst
    → fetch c.key s' ≡ some (stored now server true c tokens)
    → price c ≤ min (capacity c.rule) (tokens + (later - now) * c.rule.limit)
    → is_short later server' s' c ≡ false
level-stored now server later server' c tokens s' fits hb has =
    let fit : price c ≤ capacity c.rule = mul-le-mul_right (token c.rule) fits in
    elim (Bool-cases (ltb server' (stored now server true c tokens).expires_at)) [
      | inl e ↦ rw (hb, e) (not_short_of_le _ _ has)
      | inr e ↦ rw (hb, e) (not_short_of_le _ _ fit)
    ]

run_script-covers :
    (now server : ℕ) (cs : List Charge) (s : Store)
    → All
        (λ c.
          is_short now server s c ≡ true
          → wait c (level now server s c) ≤ (run_script now server cs s).0.retry_after)
        cs
unfolding run_script
run_script-covers now server cs s = covers now server s 1 cs begin

any_short-false :
    (now server : ℕ) (s : Store) (cs : List Charge)
    → All (λ c. is_short now server s c ≡ false) cs
    → any_short now server s cs ≡ false
any_short-false now server s [] a = refl
any_short-false now server s (c ∷ cs) a = rw (a.0) (any_short-false now server s cs a.1)

-- A bucket that can ever admit its cost.
abbrev pub IsPayable : Charge → Type 0
IsPayable c = (0 < c.rule.limit) × (c.cost ≤ c.rule.burst)

pays_then :
    (now server later server' retry : ℕ) (s s' : Store) (c : Charge)
    → now + retry * 1000000 ≤ later
    → IsPayable c
    → (is_short now server s c ≡ true → wait c (level now server s c) ≤ retry)
    → fetch c.key s' ≡ some (stored now server true c (level now server s c))
    → is_short later server' s' c ≡ false
pays_then now server later server' retry s s' c late (pos, fits) covered hb =
    let tokens = level now server s c in
    level-stored now server later server' c tokens s' fits hb
      (elim (Bool-cases (is_short now server s c)) [
        | inl e ↦ refilled_by_then c tokens (later - now) pos fits (omega (arith, covered e, late))
        | inr e ↦ enough_by_then c tokens (later - now) fits (not_ltb tokens (price c) e)
      ])

-- A request on separate keys, each with a positive limit and a cost that is at most its burst,
-- that the script denies is let through by the next run at or after the end of the wait that the
-- script answers, if no other request comes between.
pub run_script-retry :
    (now server later server' : ℕ) (cs : List Charge) (s : Store)
    → Separate cs
    → All IsPayable cs
    → (run_script now server cs s).0.denied ≡ true
    → now + (run_script now server cs s).0.retry_after * 1000000 ≤ later
    → (run_script later server' cs (run_script now server cs s).1).0.denied ≡ false
run_script-retry now server later server' cs s sep payable denied late =
    let (d, written, _) = run_script_lem now server cs s sep in
    let retry = (run_script now server cs s).0.retry_after in
    let s' = (run_script now server cs s).1 in
    let short : any_short now server s cs ≡ true = sym d ∙ denied in
    let stores =
      subst
        (λ x. All (λ c. fetch c.key s' ≡ some (stored now server x c (level now server s c))) cs)
        short written in
    (run_script_lem later server' cs s' sep).0
    ∙ any_short-false later server' s' cs (
        let C : Charge → Type 0 =
          λ c. is_short now server s c ≡ true → wait c (level now server s c) ≤ retry in
        let W : Charge → Type 0 =
          λ c. fetch c.key s' ≡ some (stored now server true c (level now server s c)) in
        All-imply (λ c. IsPayable c × (C c × W c)) (λ c. is_short later server' s' c ≡ false) cs
          (λ c h. pays_then now server later server' retry s s' c late h.0 h.1.0 h.1.1)
          (All-and IsPayable (λ c. C c × W c) cs payable
            (All-and C W cs (run_script-covers now server cs s) stores)))

refilled_le : (now server : ℕ) (s : Store) (c : Charge) → level now server s c ≤ capacity c.rule
refilled_le now server s c = refilled-capacity c.rule now (alive server (fetch c.key s))

short_of_dear :
    (now server : ℕ) (s : Store) (c : Charge)
    → 0 < c.rule.window
    → c.rule.burst < c.cost
    → is_short now server s c ≡ true
short_of_dear now server s c pos dear =
    let more : c.rule.burst + 1 ≤ c.cost = omega (arith, dear) in
    let m : (c.rule.burst + 1) * token c.rule ≤ price c = mul-le-mul_right (token c.rule) more in
    lt→ltb (level now server s c) (price c) (omega (arith, m, refilled_le now server s c, pos))

or_true : (b : Bool) → (b || true) ≡ true
or_true true = refl
or_true false = refl

any_short-append :
    (now server : ℕ) (s : Store) (c : Charge) (before cs : List Charge)
    → is_short now server s c ≡ true
    → any_short now server s (before ++ c ∷ cs) ≡ true
any_short-append now server s c [] cs h = rw h
any_short-append now server s c (b ∷ before) cs h =
    rw (any_short-append now server s c before cs h) (or_true (is_short now server s b))

-- A request with a cost above the burst of its bucket is denied in every state of the store.
run_script-dear :
    (now server : ℕ) (c : Charge) (before cs : List Charge) (s : Store)
    → 0 < c.rule.window
    → c.rule.burst < c.cost
    → (run_script now server (before ++ c ∷ cs) s).0.denied ≡ true
run_script-dear now server c before cs s pos dear =
    run_script-denied now server (before ++ c ∷ cs) s
    ∙ any_short-append now server s c before cs (short_of_dear now server s c pos dear)
