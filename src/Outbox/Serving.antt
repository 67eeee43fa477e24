-- ===== src/Outbox/Serving.antt =====
-- The fairness pass of `claim_batch` (src/infra/db/repositories/dispatch_jobs.py): no user waits
-- behind the backlog of another.
use abrio.Prelude.{
  All-and, All-imply, count, ℕ, zero, suc, ◌-◌, ◌≤◌, ◌≡◌, refl, inl, inr, Bool, true, false, not,
  ◌&&◌, List, [], ◌∷◌, ◌++◌, map, All, keep, take, length, elem, Bool-cases, ◌==◌, ==-refl, leb,
  arith, if◌then◌else◌,
}
use abrio.Domain.Enums.{MessagePriority}
use abrio.Database.Rows.{DispatchJob}
use abrio.Repositories.Jobs.{ids}
use abrio.Repositories.Claim.{
  insert_by, sort_by, candidates, count_user, number_rows, rank_first, ranked_id, within, fair_pass,
  fair_ids, topup_pass, select_batch, claim_batch,
}
use abrio.Repositories.Order.{count-keep-le, count-sort_by, All-of_keep, All-of_sort_by}
use abrio.Outbox.Claiming.{ids-lock, All-insert_by}
use abrio.Outbox.Filling.{elem-keep, elem-append_left, ids-append}

-- The first row of each user that has none in `seen`.
abbrev pub fronts : List DispatchJob → List DispatchJob → List DispatchJob
fronts seen [] = []
fronts seen (j ∷ js) =
    if count_user j.user_id seen == 0 then j ∷ fronts (j ∷ seen) js else fronts (j ∷ seen) js

-- A row of rank 1.
abbrev leads : ℕ × DispatchJob → Bool
leads x = leb x.0 1

abbrev Trails : ℕ × DispatchJob → Type 0
Trails x = leads x ≡ false

-- The rows of rank 1 stand first.
abbrev IsLed : List (ℕ × DispatchJob) → Type 0
IsLed [] = Unit
IsLed (x ∷ xs) = (Trails x → All Trails xs) × IsLed xs

insert_by-IsLed :
    (x : ℕ × DispatchJob) (xs : List (ℕ × DispatchJob))
    → IsLed xs
    → IsLed (insert_by rank_first x xs)
unfolding insert_by
insert_by-IsLed x [] o = ((λ h. tt), tt)
insert_by-IsLed x (y ∷ ys) o = elim (Bool-cases (rank_first x y)) [
  | inl e ↦ rw e ((λ h. let t : Trails y = ground (arith, e, h) in (t, o.0 t)), o)
  | inr e ↦ rw e (
    (λ h. All-insert_by Trails rank_first x ys (ground (arith, e, h)) (o.0 h)),
    insert_by-IsLed x ys o.1,
  )
]

sort_by-IsLed : (xs : List (ℕ × DispatchJob)) → IsLed (sort_by rank_first xs)
unfolding sort_by
sort_by-IsLed [] = tt
sort_by-IsLed (x ∷ xs) = insert_by-IsLed x (sort_by rank_first xs) (sort_by-IsLed xs)

-- The rows of rank 1 are among the first `n`, if there are no more of them.
abbrev Served : List ℕ → ℕ × DispatchJob → Type 0
Served is x = leads x ≡ true → elem x.1.id is ≡ true

trailing-Served : (is : List ℕ) (x : ℕ × DispatchJob) → Trails x → Served is x
trailing-Served is x t h = absurd (ground (arith, t, h))

later-Served : (i : ℕ) (is : List ℕ) (x : ℕ × DispatchJob) → Served is x → Served (i ∷ is) x
later-Served i is x s h = ground (arith, s h)

take-Served :
    (n : ℕ) (xs : List (ℕ × DispatchJob))
    → IsLed xs
    → count leads xs ≤ n
    → All (Served (take n (map ranked_id xs))) xs
take-Served n [] o h = tt
take-Served zero (x ∷ xs) o h = elim (Bool-cases (leads x)) [
  | inl e ↦ absurd (ground (arith, e, h))
  | inr e ↦ (trailing-Served [] x e, All-imply Trails (Served []) xs (trailing-Served []) (o.0 e))
]
take-Served (suc n) (x ∷ xs) o h =
    let is = take n (map ranked_id xs) in
    elim (Bool-cases (leads x)) [
      | inl e ↦ (
        λ l. ground (arith, ==-refl x.1.id),
        All-imply (Served is) (Served (x.1.id ∷ is)) xs (later-Served x.1.id is)
            (take-Served n xs o.1 (ground (arith, e, h))),
      )
      | inr e ↦ (
        trailing-Served (x.1.id ∷ is) x e,
        All-imply Trails (Served (x.1.id ∷ is)) xs (trailing-Served (x.1.id ∷ is)) (o.0 e),
      )
    ]

count-leads :
    (seen js : List DispatchJob) → count leads (number_rows seen js) ≡ length (fronts seen js)
unfolding number_rows
count-leads seen [] = refl
count-leads seen (j ∷ js) = ground (arith, count-leads (j ∷ seen) js)

fronts-Served :
    (is : List ℕ) (seen js : List DispatchJob)
    → All (Served is) (number_rows seen js)
    → All (λ j. elem j.id is ≡ true) (fronts seen js)
unfolding number_rows
fronts-Served is seen [] a = tt
fronts-Served is seen (j ∷ js) a = elim (Bool-cases (count_user j.user_id seen == 0)) [
  | inl e ↦ rw e (a.0 (ground (arith, e)), fronts-Served is (j ∷ seen) js a.1)
  | inr e ↦ rw e (fronts-Served is (j ∷ seen) js a.1)
]

fronts-All :
    (P : DispatchJob → Type 0) (seen js : List DispatchJob) → All P js → All P (fronts seen js)
fronts-All P seen [] a = tt
fronts-All P seen (j ∷ js) a = elim (Bool-cases (count_user j.user_id seen == 0)) [
  | inl e ↦ rw e (a.0, fronts-All P (j ∷ seen) js a.1)
  | inr e ↦ rw e (fronts-All P (j ∷ seen) js a.1)
]

-- The fairness pass on ordered rows.
module _ (limit per_user_limit : ℕ) (js : List DispatchJob) (some_each : 1 ≤ per_user_limit)
    (room : length (fronts [] js) ≤ limit) where
  fair_ids-fronts : All (λ j. elem j.id (fair_ids limit per_user_limit js) ≡ true) (fronts [] js)
  unfolding fair_ids
  fair_ids-fronts =
      let rows = number_rows [] js in
      let near = keep (within per_user_limit) rows in
      let sorted = sort_by rank_first near in
      let is = take limit (map ranked_id sorted) in
      let few : count leads sorted ≤ limit = omega (
        arith,
        count-sort_by rank_first leads near,
        count-keep-le leads (within per_user_limit) rows,
        count-leads [] js,
        room,
      ) in
      let ranked = All-of_keep (Served is) (within per_user_limit) rows (
        All-of_sort_by rank_first (Served is) near
          (take-Served limit sorted (sort_by-IsLed near) few)) in
      fronts-Served is [] js (
        All-imply (λ x. within per_user_limit x ≡ true → Served is x) (Served is) rows
          (λ x s l. s (ground (arith, l, some_each)) l) ranked)

  select_batch-fronts :
      (locked : ℕ → Bool)
      → All
          (λ j.
            locked j.id ≡ false
            → elem j.id (ids (select_batch locked limit per_user_limit js)) ≡ true)
          (fronts [] js)
  unfolding select_batch fair_pass
  select_batch-fronts locked =
      let is = fair_ids limit per_user_limit js in
      let p : DispatchJob → Bool = λ j. elem j.id is && not (locked j.id) in
      let fair = keep p js in
      let spare = topup_pass locked (limit - length fair) (ids fair) js in
      let Named : DispatchJob → Type 0 = λ j. elem j.id is ≡ true in
      let Passes : DispatchJob → Type 0 = λ j. p j ≡ true → elem j.id (ids fair) ≡ true in
      All-imply (λ j. Named j × Passes j)
        (λ j. locked j.id ≡ false → elem j.id (ids (fair ++ spare)) ≡ true) (fronts [] js)
        (λ j h e.
          rw (ids-append fair spare)
            (elem-append_left j.id (ids fair) (ids spare) (h.1 (rw (h.0, e) refl))))
        (All-and Named Passes (fronts [] js) fair_ids-fronts
          (fronts-All Passes [] js (elem-keep p js)))

-- If the limit per user is positive and no more users than the limit have eligible jobs, then the
-- first eligible job of each user, in the order of the queue, is in the batch that a relay claims,
-- unless another transaction holds it, however many jobs the other users have.
pub claim_batch-serves :
    (q : MessagePriority) (relay_id limit lease_seconds per_user_limit now : ℕ) (locked : ℕ → Bool)
    (js : List DispatchJob)
    → 1 ≤ per_user_limit
    → let first = fronts [] (candidates q now lease_seconds js) in
      length first ≤ limit
      → All
          (λ j.
            locked j.id ≡ false
            → elem j.id
                (ids (claim_batch q relay_id limit lease_seconds per_user_limit locked now js).0)
              ≡ true)
          first
unfolding claim_batch
claim_batch-serves q relay_id limit lease_seconds per_user_limit now locked js some_each room =
    let cs = candidates q now lease_seconds js in
    rw (ids-lock now relay_id (select_batch locked limit per_user_limit cs))
      (select_batch-fronts limit per_user_limit cs some_each room locked)
