-- ===== src/Outbox/Filling.antt =====
-- `claim_batch` of src/infra/db/repositories/dispatch_jobs.py: how full a batch is.
use abrio.Prelude.{
  count, All-imply, ℕ, zero, suc, ◌+◌, ◌-◌, ◌≤◌, ◌<◌, ◌≡◌, refl, subst, ap, inl, inr, Bool, true,
  false, not, ◌&&◌, ◌||◌, none, List, [], ◌∷◌, ◌++◌, map, All, keep, take, length, length-take,
  length-append, elem, Bool-cases, ◌==◌, ==→eq, ==-refl, arith, if◌then◌else◌,
}
use abrio.Domain.Enums.{MessagePriority}
use abrio.Database.Table.{find, Keyed}
use abrio.Database.Rows.{DispatchJob, job_key}
use abrio.Repositories.Jobs.{ids}
use abrio.Repositories.Claim.{
  eligible, older_first, candidates, fair_pass, fair_ids, topup_pass, select_batch, lock_for,
  claim_batch,
}
use abrio.Repositories.Order.{count-keep-le, count-sort_by, All-of_keep, All-of_sort_by}
use abrio.Outbox.Claiming.{ids-lock}

count-or :
    (p q : DispatchJob → Bool) (js : List DispatchJob)
    → count (λ j. p j || q j) js ≤ count p js + count q js
count-or p q [] = omega arith
count-or p q (j ∷ js) = ground (arith, count-or p q js)

count-and :
    (p q : DispatchJob → Bool) (js : List DispatchJob) → count (λ j. p j && q j) js ≤ count p js
count-and p q [] = omega arith
count-and p q (j ∷ js) = ground (arith, count-and p q js)

-- No id stands twice.
abbrev Once : List DispatchJob → Type 0
Once js = (i : ℕ) → count (λ j. j.id == i) js ≤ 1

count-find-none :
    (i : ℕ) (js : List DispatchJob) → find job_key i js ≡ none → count (λ j. j.id == i) js ≡ 0
count-find-none i [] h = refl
count-find-none i (j ∷ js) h = ground (arith, count-find-none i js)

Keyed-Once : (js : List DispatchJob) → Keyed job_key js → Once js
Keyed-Once [] k i = omega arith
Keyed-Once (j ∷ js) k i = elim (Bool-cases (j.id == i)) [
  | inl e ↦
      let gone : count (λ x. x.id == i) js ≡ 0 =
        count-find-none i js (subst (λ y. find job_key y js ≡ none) (==→eq j.id i e) k.0) in
      rw e (omega (arith, gone))
  | inr e ↦ rw e (Keyed-Once js k.1 i)
]

count-none : (js : List DispatchJob) → count (λ j. false) js ≡ 0
count-none [] = refl
count-none (j ∷ js) = count-none js

count-elem :
    (is : List ℕ) (js : List DispatchJob) → Once js → count (λ j. elem j.id is) js ≤ length is
count-elem [] js o = omega (arith, count-none js)
count-elem (i ∷ is) js o =
    omega (arith, o i, count-elem is js o, count-or (λ j. j.id == i) (λ j. elem j.id is) js)

candidates-Once :
    (q : MessagePriority) (now lease_seconds : ℕ) (js : List DispatchJob)
    → Once js
    → Once (candidates q now lease_seconds js)
unfolding candidates
candidates-Once q now l js o i =
    let p = eligible q now l in
    omega (
      arith,
      o i,
      count-sort_by older_first (λ j. j.id == i) (keep p js),
      count-keep-le (λ j. j.id == i) p js,
    )

-- The id of a row that passes a test is among those of the rows that pass.
elem_split :
    (p : DispatchJob → Bool) (b : Bool) (j : DispatchJob) (js : List DispatchJob)
    (passed : List DispatchJob)
    → p j ≡ b
    → All (λ k. p k ≡ true → elem k.id (ids passed) ≡ true) js
    → All (λ k. p k ≡ true → elem k.id (ids (if b then j ∷ passed else passed)) ≡ true) (j ∷ js)
elem_split p true j js passed e a = (
  λ h. ground (arith, ==-refl j.id),
  All-imply (λ k. p k ≡ true → elem k.id (ids passed) ≡ true)
      (λ k. p k ≡ true → elem k.id (j.id ∷ ids passed) ≡ true) js (λ k h f. ground (arith, h f)) a,
)
elem_split p false j js passed e a = (λ h. absurd (ground (arith, e, h)), a)

pub elem-keep :
    (p : DispatchJob → Bool) (js : List DispatchJob)
    → All (λ j. p j ≡ true → elem j.id (ids (keep p js)) ≡ true) js
elem-keep p [] = tt
elem-keep p (j ∷ js) = elem_split p (p j) j js (keep p js) refl (elem-keep p js)

pub elem-append_left : (i : ℕ) (is ks : List ℕ) → elem i is ≡ true → elem i (is ++ ks) ≡ true
elem-append_left i [] ks h = cc
elem-append_left i (k ∷ is) ks h = ground (arith, elem-append_left i is ks)

elem-append_right : (i : ℕ) (is ks : List ℕ) → elem i ks ≡ true → elem i (is ++ ks) ≡ true
elem-append_right i [] ks h = h
elem-append_right i (k ∷ is) ks h = ground (arith, elem-append_right i is ks h)

pub ids-append : (js ks : List DispatchJob) → ids (js ++ ks) ≡ ids js ++ ids ks
ids-append [] ks = refl
ids-append (j ∷ js) ks = ap (λ is. j.id ∷ is) (ids-append js ks)

take_short : (n : ℕ) (js : List DispatchJob) → length (take n js) < n → take n js ≡ js
take_short zero js h = absurd (omega arith)
take_short (suc n) [] h = refl
take_short (suc n) (j ∷ js) h = ap (λ ks. j ∷ ks) (take_short n js (omega arith))

take-le : (n : ℕ) (is : List ℕ) → length (take n is) ≤ n
take-le n is = omega (arith, length-take n is)

fair_ids-le :
    (limit per_user_limit : ℕ) (js : List DispatchJob)
    → length (fair_ids limit per_user_limit js) ≤ limit
unfolding fair_ids
fair_ids-le limit per_user_limit js = take-le limit _

length-map : (f : DispatchJob → DispatchJob) (js : List DispatchJob) → length (map f js) ≡ length js
length-map f [] = refl
length-map f (j ∷ js) = ap suc (length-map f js)

-- The jobs that a batch on ordered rows takes.
module _ (locked : ℕ → Bool) (limit per_user_limit : ℕ) (js : List DispatchJob) where
  abbrev fair : List DispatchJob
  fair = fair_pass locked limit per_user_limit js

  abbrev spare : DispatchJob → Bool
  spare j = not (elem j.id (ids fair)) && not (locked j.id)

  length-fair : Once js → length fair ≤ limit
  unfolding fair_pass
  length-fair o =
      let is = fair_ids limit per_user_limit js in
      omega (
        arith,
        count-and (λ j. elem j.id is) (λ j. not (locked j.id)) js,
        count-elem is js o,
        fair_ids-le limit per_user_limit js,
      )

  length-select_batch : Once js → length (select_batch locked limit per_user_limit js) ≤ limit
  unfolding select_batch topup_pass
  length-select_batch o =
      let top = length-take (limit - length fair) (keep spare js) in
      let both = length-append fair (take (limit - length fair) (keep spare js)) in
      omega (arith, both, top, length-fair o)

  select_batch-fills :
      length (select_batch locked limit per_user_limit js) < limit
      → All
          (λ j.
            locked j.id ≡ false
            → elem j.id (ids (select_batch locked limit per_user_limit js)) ≡ true)
          js
  unfolding select_batch topup_pass
  select_batch-fills h =
      let rest = keep spare js in
      let both = length-append fair (take (limit - length fair) rest) in
      let all : take (limit - length fair) rest ≡ rest =
        take_short (limit - length fair) rest (omega (arith, both, h)) in
      All-imply (λ j. spare j ≡ true → elem j.id (ids rest) ≡ true)
        (λ j.
          locked j.id ≡ false → elem j.id (ids (fair ++ take (limit - length fair) rest)) ≡ true)
        js
        (λ j f e.
          rw (all, ids-append fair rest)
            (elim (Bool-cases (elem j.id (ids fair))) [
              | inl g ↦ elem-append_left j.id (ids fair) (ids rest) g
              | inr g ↦ elem-append_right j.id (ids fair) (ids rest) (f (rw (g, e) refl))
            ]))
        (elem-keep spare js)

-- On a table without two jobs of one id, a batch that a relay claims has at most as many jobs as
-- its limit, and if it has fewer then every eligible job that no other transaction holds is in it.
pub claim_batch-fills :
    (q : MessagePriority) (relay_id limit lease_seconds per_user_limit now : ℕ) (locked : ℕ → Bool)
    (js : List DispatchJob)
    → Keyed job_key js
    → let batch = (claim_batch q relay_id limit lease_seconds per_user_limit locked now js).0 in
      (length batch ≤ limit)
      × (length batch < limit
          → All
              (λ j.
                eligible q now lease_seconds j ≡ true
                → locked j.id ≡ false
                → elem j.id (ids batch) ≡ true)
              js)
unfolding claim_batch candidates
claim_batch-fills q relay_id limit lease_seconds per_user_limit now locked js keyed =
    let p = eligible q now lease_seconds in
    let cs = candidates q now lease_seconds js in
    let chosen = select_batch locked limit per_user_limit cs in
    let once = candidates-Once q now lease_seconds js (Keyed-Once js keyed) in
    let same_length = length-map (lock_for now relay_id) chosen in
    let Taken : DispatchJob → Type 0 =
      λ j. locked j.id ≡ false → elem j.id (ids (map (lock_for now relay_id) chosen)) ≡ true in
    (
      omega (arith, same_length, length-select_batch locked limit per_user_limit cs once),
      λ h. All-of_keep Taken p js (
          All-of_sort_by older_first Taken (keep p js) (
            rw (ids-lock now relay_id chosen)
              (select_batch-fills locked limit per_user_limit cs (omega (arith, same_length, h))))),
    )
