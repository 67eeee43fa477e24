-- ===== src/RateLimit/Blame.antt =====
-- The rule that a refusal names (src/api/rate_limit.py, the script's `denied_index` and `check`).
use abrio.Prelude.{
  ℕ, zero, suc, ◌+◌, ◌-◌, ◌*◌, ◌≤◌, ◌<◌, ◌≡◌, refl, sym, subst, ap, ◌∙◌, ◌⊎◌, inl, inr, true, false,
  Option, none, some, List, [], ◌∷◌, map, All, Text, ltb, ltb→lt, Bool-cases, arith,
}
use abrio.Prelude.Division.{ceil_div-le}
use abrio.RateLimit.Bucket.{
  Store, Charge, Verdict, price, level, wait, judge, first_loop, begin, run_script,
}
use abrio.RateLimit.Charging.{is_short}
use abrio.RateLimit.Limiter.{ResolvedRateLimit, charge_for, header_bucket, check, decide}

abbrev nth : ℕ → List Charge → Option Charge
nth i [] = none
nth zero (c ∷ cs) = some c
nth (suc i) (c ∷ cs) = nth i cs

wait_pos : (c : Charge) (tokens : ℕ) → 0 < c.rule.limit → tokens < price c → 0 < wait c tokens
wait_pos c tokens pos short =
    let b = 1000000 * c.rule.limit in
    let e = ceil_div-le (price c - tokens) b (omega (arith, pos)) in
    elim (Bool-cases (ltb 0 (wait c tokens))) [
      | inl h ↦ ltb→lt 0 (wait c tokens) h
      | inr h ↦
          let none_left : wait c tokens ≡ 0 = ground (arith, h) in
          let nothing : price c - tokens ≤ 0 * b =
            subst (λ x. price c - tokens ≤ x * b) none_left e in
          absurd (omega (arith, nothing, short))
    ]

module _ (now server : ℕ) (s : Store) (all : List Charge) where
  -- The index, which counts from 1, is that of a bucket that lacks tokens.
  abbrev IsBlamed : ℕ → Type 0
  IsBlamed i = (c : Charge) × (nth (i - 1) all ≡ some c) × (is_short now server s c ≡ true)

  abbrev Blames : Verdict → Type 0
  Blames v = (v.denied ≡ false → v.retry_after ≡ 0) × (v.denied ≡ true → IsBlamed v.denied_index)

  judge-Blames :
      (i : ℕ) (c : Charge) (v : Verdict)
      → 0 < c.rule.limit
      → nth (i - 1) all ≡ some c
      → Blames v
      → Blames (judge i c (level now server s c) v)
  unfolding judge
  judge-Blames i c v pos here b = elim (Bool-cases (is_short now server s c)) [
    | inl short ↦
        let w =
          wait_pos c (level now server s c) pos (ltb→lt (level now server s c) (price c) short) in
        elim (Bool-cases (ltb v.retry_after (wait c (level now server s c)))) [
          | inl more ↦ rw (short, more) ((λ h. absurd (ground (arith, h))), λ h. (c, here, short))
          | inr less ↦
              rw (short, less)
                (
                  (λ h. absurd (ground (arith, h))),
                  λ h. elim (Bool-cases v.denied) [
                    | inl d ↦ b.1 d
                    | inr d ↦ absurd (ground (arith, less, b.0 d, w))
                  ],
                )
        ]
    | inr paid ↦ rw paid b
  ]

  first_loop-Blames :
      (i : ℕ) (cs : List Charge) (v : Verdict)
      → All (λ c. 0 < c.rule.limit) cs
      → 0 < i
      → ((k : ℕ) → nth (i + k - 1) all ≡ nth k cs)
      → Blames v
      → Blames (first_loop now server s i cs v)
  unfolding first_loop
  first_loop-Blames i [] v a p h b = b
  first_loop-Blames i (c ∷ cs) v a p h b =
      let e : i + 0 - 1 ≡ i - 1 = omega arith in
      let here : nth (i - 1) all ≡ some c = ap (λ k. nth k all) (sym e) ∙ h 0 in
      first_loop-Blames (suc i) cs (judge i c (level now server s c) v) a.1 (omega arith)
        (λ k.
          let f : suc i + k - 1 ≡ i + suc k - 1 = omega arith in ap (λ k. nth k all) f ∙ h (suc k))
        (judge-Blames i c v a.0 here b)

-- A bucket of the request.
abbrev pub Among : ResolvedRateLimit → List ResolvedRateLimit → Type 0
Among b [] = false ≡ true
Among b (x ∷ xs) = (b ≡ x) ⊎ Among b xs

header_bucket-Among :
    (i : ℕ) (b : ResolvedRateLimit) (bs : List ResolvedRateLimit)
    → Among (header_bucket i b bs) (b ∷ bs)
unfolding header_bucket
header_bucket-Among zero b bs = inl refl
header_bucket-Among (suc zero) b bs = inl refl
header_bucket-Among (suc (suc i)) b [] = inl refl
header_bucket-Among (suc (suc i)) b (x ∷ xs) = inr (header_bucket-Among (suc i) x xs)

header_bucket-nth :
    (p : Text) (i : ℕ) (b : ResolvedRateLimit) (bs : List ResolvedRateLimit) (c : Charge)
    → nth (i - 1) (map (charge_for p) (b ∷ bs)) ≡ some c
    → charge_for p (header_bucket i b bs) ≡ c
unfolding header_bucket
header_bucket-nth p zero b bs c h = ground (arith, h)
header_bucket-nth p (suc zero) b bs c h = ground (arith, h)
header_bucket-nth p (suc (suc i)) b [] c h =
    let e : suc (suc i) - 1 ≡ suc i = omega arith in
    let missing : none ≡ some c = ap (λ k. nth k (charge_for p b ∷ [])) (sym e) ∙ h in cc
header_bucket-nth p (suc (suc i)) b (x ∷ xs) c h =
    let e : suc (suc i) - 1 ≡ suc i = omega arith in
    let f : suc i - 1 ≡ i = omega arith in
    let rest = map (charge_for p) (x ∷ xs) in
    header_bucket-nth p (suc i) x xs c
      (ap (λ k. nth k rest) f ∙ ap (λ k. nth k (charge_for p b ∷ rest)) (sym e) ∙ h)

charged_limits :
    (p : Text) (bs : List ResolvedRateLimit)
    → All (λ b. 0 < b.rule.limit) bs
    → All (λ c. 0 < c.rule.limit) (map (charge_for p) bs)
unfolding charge_for
charged_limits p [] a = tt
charged_limits p (b ∷ bs) a = (a.0, charged_limits p bs a.1)

-- If the limiter refuses a request whose rules have positive limits, the decision names the rule
-- and the limit of a bucket of the request that lacks tokens.
pub check-names :
    (key_prefix : Text) (now server : ℕ) (bs : List ResolvedRateLimit) (store : Store)
    → All (λ b. 0 < b.rule.limit) bs
    → let decision = (check key_prefix now server bs store).0 in
      decision.allowed ≡ false
      → (b : ResolvedRateLimit) × Among b bs
        × (is_short now server store (charge_for key_prefix b) ≡ true)
        × (decision.denied_rule_name ≡ some b.rule.name)
        × (decision.limit ≡ b.rule.limit)
unfolding check decide run_script
check-names p now server [] store pos h = absurd (ground (arith, h))
check-names p now server (b ∷ bs) store pos h =
    let all = map (charge_for p) (b ∷ bs) in
    let v = first_loop now server store 1 all begin in
    let denied : v.denied ≡ true = ground (arith, h) in
    let counts : (k : ℕ) → nth (1 + k - 1) all ≡ nth k all =
      λ k. let e : 1 + k - 1 ≡ k = omega arith in ap (λ i. nth i all) e in
    let start : Blames now server store all begin =
      ((λ e. refl), (λ e. absurd (ground (arith, e)))) in
    let (c, found, short) =
      (first_loop-Blames now server store all 1 all begin (charged_limits p (b ∷ bs) pos)
          (omega arith) counts start).1
        denied in
    let same_charge = header_bucket-nth p v.denied_index b bs c found in
    (
      header_bucket v.denied_index b bs,
      header_bucket-Among v.denied_index b bs,
      subst (λ x. is_short now server store x ≡ true) (sym same_charge) short,
      rw denied refl,
      refl,
    )
