-- ===== src/RateLimit/Charging.antt =====
-- What one run of the script of src/api/rate_limit.py decides and writes.
use abrio.Prelude.{
  ℕ, suc, ◌≡◌, refl, sym, subst, ap, ◌∙◌, inl, inr, Bool, true, false, ◌||◌, some, List, [], ◌∷◌,
  Text, All, ltb, if◌then◌else◌, Bool-cases, arith,
}
use abrio.Prelude.Texts.{same, same_refl, same→eq}
use abrio.RateLimit.Bucket.{
  Bucket, Store, Charge, Verdict, fetch, put, price, level, judge, first_loop, stored, second_loop,
  begin, run_script,
}

not_same : (x y : Text) → (same x y ≡ true → ⊥) → same x y ≡ false
not_same x y h = elim (Bool-cases (same x y)) [ inl e ↦ absurd (h e) | inr e ↦ e ]

not_eq_of_same : (x y : Text) → x ≡ y → same x y ≡ false → ⊥
not_eq_of_same x y e h =
    let t : same x y ≡ true = subst (λ z. same x z ≡ true) e (same_refl x) in cc

pub fetch-put :
    (k key : Text) (b : Bucket) (s : Store)
    → fetch k (put key b s) ≡ (if same key k then some b else fetch k s)
fetch-put k key b [] = refl
fetch-put k key b (e ∷ es) = elim (Bool-cases (same e.key key)) [
  | inl hit ↦ elim (Bool-cases (same key k)) [
    | inl here ↦ rw (hit, here)
    | inr off ↦
        let off' : same e.key k ≡ false = ap (λ x. same x k) (same→eq e.key key hit) ∙ off in
        rw (hit, off, off')
  ]
  | inr miss ↦ elim (Bool-cases (same e.key k)) [
    | inl here ↦
        let off : same key k ≡ false =
          not_same key k
            (λ h. not_eq_of_same e.key key (same→eq e.key k here ∙ sym (same→eq key k h)) miss) in
        rw (miss, here, off)
    | inr off ↦ rw (miss, off) (fetch-put k key b es)
  ]
]

-- A bucket lacks tokens.
abbrev pub is_short : ℕ → ℕ → Store → Charge → Bool
is_short now server s c = ltb (level now server s c) (price c)

abbrev pub any_short : ℕ → ℕ → Store → List Charge → Bool
any_short now server s [] = false
any_short now server s (c ∷ cs) = is_short now server s c || any_short now server s cs

-- No key stands twice.
abbrev pub Others : Text → List Charge → Type 0
Others k = All (λ c. same c.key k ≡ false)

abbrev pub Separate : List Charge → Type 0
Separate [] = Unit
Separate (c ∷ cs) = Others c.key cs × Separate cs

judge-denied :
    (i : ℕ) (c : Charge) (tokens : ℕ) (v : Verdict)
    → (judge i c tokens v).denied ≡ (v.denied || ltb tokens (price c))
unfolding judge
judge-denied i c tokens v = elim (Bool-cases (ltb tokens (price c))) [
  | inl e ↦ rw e (ground arith)
  | inr e ↦ rw e (ground arith)
]

or_assoc : (a b c : Bool) → ((a || b) || c) ≡ (a || (b || c))
or_assoc true b c = refl
or_assoc false b c = refl

module _ (now server : ℕ) (s : Store) where
  first_loop-denied :
      (i : ℕ) (cs : List Charge) (v : Verdict)
      → (first_loop now server s i cs v).denied ≡ (v.denied || any_short now server s cs)
  unfolding first_loop
  first_loop-denied i [] v = ground arith
  first_loop-denied i (c ∷ cs) v =
      first_loop-denied (suc i) cs (judge i c (level now server s c) v)
      ∙ ap (λ d. d || any_short now server s cs) (judge-denied i c (level now server s c) v)
      ∙ or_assoc v.denied (is_short now server s c) (any_short now server s cs)

  module _ (d : Bool) where
    second_loop-skips :
        (k : Text) (cs : List Charge) (out : Store)
        → Others k cs
        → fetch k (second_loop now server d s cs out) ≡ fetch k out
    unfolding second_loop
    second_loop-skips k [] out a = refl
    second_loop-skips k (c ∷ cs) out a =
        let b = stored now server d c (level now server s c) in
        second_loop-skips k cs (put c.key b out) a.1 ∙ fetch-put k c.key b out ∙ rw (a.0)

    abbrev Written : Store → Charge → Type 0
    Written out c = fetch c.key out ≡ some (stored now server d c (level now server s c))

    second_loop-writes :
        (cs : List Charge) (out : Store)
        → Separate cs
        → All (Written (second_loop now server d s cs out)) cs
    unfolding second_loop
    second_loop-writes [] out a = tt
    second_loop-writes (c ∷ cs) out a =
        let b = stored now server d c (level now server s c) in
        (
          second_loop-skips c.key cs (put c.key b out) a.0
              ∙ fetch-put c.key c.key b out
              ∙ rw (same_refl c.key),
          second_loop-writes cs (put c.key b out) a.1,
        )

pub run_script-denied :
    (now server : ℕ) (cs : List Charge) (s : Store)
    → (run_script now server cs s).0.denied ≡ any_short now server s cs
unfolding run_script
run_script-denied now server cs s = first_loop-denied now server s 1 cs begin

pub run_script_lem :
    (now server : ℕ) (cs : List Charge) (s : Store)
    → Separate cs
    → ((run_script now server cs s).0.denied ≡ any_short now server s cs)
      × All
          (λ c.
            fetch c.key (run_script now server cs s).1
            ≡ some (stored now server (any_short now server s cs) c (level now server s c)))
          cs
      × ((k : Text) → Others k cs → fetch k (run_script now server cs s).1 ≡ fetch k s)
unfolding run_script
run_script_lem now server cs s sep =
    let d = first_loop-denied now server s 1 cs begin in
    (
      d,
      subst
          (λ x.
            All
              (λ c.
                fetch c.key
                  (second_loop now server (first_loop now server s 1 cs begin).denied s cs s)
                ≡ some (stored now server x c (level now server s c)))
              cs)
          d (second_loop-writes now server s (first_loop now server s 1 cs begin).denied cs s sep),
      λ k a. second_loop-skips now server s (first_loop now server s 1 cs begin).denied k cs s a,
    )
