-- ===== src/Outbox/Claiming.antt =====
-- `claim_batch` of src/infra/db/repositories/dispatch_jobs.py: which jobs a relay may claim.
use abrio.Prelude.{
  All-and, All-imply, ℕ, zero, suc, ◌+◌, ◌*◌, ◌-◌, ◌≤◌, ◌≡◌, refl, sym, subst, ap, inl, inr, Bool,
  true, false, not, ◌&&◌, some, List, [], ◌∷◌, ◌++◌, map, All, keep, take, length, elem, Bool-cases,
  ltb→lt, arith,
}
use abrio.Domain.Enums.{MessagePriority}
use abrio.Database.Rows.{DispatchJob}
use abrio.Repositories.Jobs.{ids, update_where, second, is_waiting}
use abrio.Repositories.Claim.{
  eligible, insert_by, sort_by, older_first, candidates, fair_pass, fair_ids, topup_pass,
  select_batch, lock_for, claim_batch, is_free,
}

module _ {A : Type 0} (P : A → Type 0) where
  pub All-keep : (p : A → Bool) (xs : List A) → All P xs → All P (keep p xs)
  All-keep p [] a = tt
  All-keep p (x ∷ xs) a = elim (Bool-cases (p x)) [
    | inl e ↦ rw e (a.0, All-keep p xs a.1)
    | inr e ↦ rw e (All-keep p xs a.1)
  ]

  All-take : (n : ℕ) (xs : List A) → All P xs → All P (take n xs)
  All-take zero xs a = tt
  All-take (suc n) [] a = tt
  All-take (suc n) (x ∷ xs) a = (a.0, All-take n xs a.1)

  All-append : (xs ys : List A) → All P xs → All P ys → All P (xs ++ ys)
  All-append [] ys a b = b
  All-append (x ∷ xs) ys a b = (a.0, All-append xs ys a.1 b)

  pub All-insert_by :
      (before : A → A → Bool) (x : A) (xs : List A) → P x → All P xs → All P (insert_by before x xs)
  unfolding insert_by
  All-insert_by before x [] h a = (h, tt)
  All-insert_by before x (y ∷ ys) h a = elim (Bool-cases (before x y)) [
    | inl e ↦ rw e (h, a)
    | inr e ↦ rw e (a.0, All-insert_by before x ys h a.1)
  ]

  pub All-sort_by : (before : A → A → Bool) (xs : List A) → All P xs → All P (sort_by before xs)
  unfolding sort_by
  All-sort_by before [] a = tt
  All-sort_by before (x ∷ xs) a =
      All-insert_by before x (sort_by before xs) a.0 (All-sort_by before xs a.1)

All-pass : {A : Type 0} (p : A → Bool) (xs : List A) → All (λ x. p x ≡ true) (keep p xs)
All-pass p [] = tt
All-pass p (x ∷ xs) = elim (Bool-cases (p x)) [
  | inl e ↦ rw e (e, All-pass p xs)
  | inr e ↦ rw e (All-pass p xs)
]

select_batch-All :
    (P : DispatchJob → Type 0) (locked : ℕ → Bool) (limit per_user_limit : ℕ)
    (js : List DispatchJob)
    → All P js
    → All P (select_batch locked limit per_user_limit js)
unfolding select_batch fair_pass topup_pass
select_batch-All P locked limit per_user_limit js a =
    let fair = fair_pass locked limit per_user_limit js in
    All-append P fair (topup_pass locked (limit - length fair) (ids fair) js)
      (All-keep P (λ j. elem j.id (fair_ids limit per_user_limit js) && not (locked j.id)) js a)
      (All-take P (limit - length fair)
        (keep (λ j. not (elem j.id (ids fair)) && not (locked j.id)) js)
        (All-keep P (λ j. not (elem j.id (ids fair)) && not (locked j.id)) js a))

candidates-All :
    (P : DispatchJob → Type 0) (q : MessagePriority) (now lease_seconds : ℕ) (js : List DispatchJob)
    → All P js
    → All (λ j. P j × (eligible q now lease_seconds j ≡ true)) (candidates q now lease_seconds js)
unfolding candidates
candidates-All P q now lease_seconds js a =
    let p = eligible q now lease_seconds in
    All-sort_by (λ j. P j × (p j ≡ true)) older_first (keep p js)
      (All-and P (λ j. p j ≡ true) (keep p js) (All-keep P p js a) (All-pass p js))

All-map :
    (P : DispatchJob → Type 0) (f : DispatchJob → DispatchJob) (js : List DispatchJob)
    → All (λ j. P (f j)) js
    → All P (map f js)
All-map P f [] a = tt
All-map P f (j ∷ js) a = (a.0, All-map P f js a.1)

-- What holds of the rows makes what is claimed of them.
claim_batch-All :
    (P Q : DispatchJob → Type 0) (q : MessagePriority)
    (relay_id limit lease_seconds per_user_limit : ℕ) (locked : ℕ → Bool) (now : ℕ)
    (js : List DispatchJob)
    → All P js
    → ((j : DispatchJob)
        → P j
        → eligible q now lease_seconds j ≡ true
        → Q (lock_for now relay_id j))
    → All Q (claim_batch q relay_id limit lease_seconds per_user_limit locked now js).0
unfolding claim_batch
claim_batch-All P Q q o limit lease_seconds per_user_limit locked now js a f =
    let cs = candidates q now lease_seconds js in
    let chosen = select_batch locked limit per_user_limit cs in
    All-map Q (lock_for now o) chosen (
      All-imply (λ j. P j × (eligible q now lease_seconds j ≡ true)) (λ j. Q (lock_for now o j))
        chosen (λ j h. f j h.0 h.1)
        (select_batch-All (λ j. P j × (eligible q now lease_seconds j ≡ true)) locked limit
          per_user_limit cs (candidates-All P q now lease_seconds js a)))

-- What the row of a claimed job says.
abbrev pub Claimed : MessagePriority → ℕ → ℕ → DispatchJob → Type 0
Claimed q relay_id now j =
    (j.priority ≡ q)
    × (is_waiting j.status ≡ true)
    × (j.available_at ≤ now)
    × (j.locked_by ≡ some relay_id)
    × (j.locked_at ≡ some now)

All-Unit : (js : List DispatchJob) → All (λ j. Unit {0}) js
All-Unit [] = tt
All-Unit (j ∷ js) = (tt, All-Unit js)

lock-Claimed :
    (q : MessagePriority) (relay_id now lease_seconds : ℕ) (j : DispatchJob)
    → eligible q now lease_seconds j ≡ true
    → Claimed q relay_id now (lock_for now relay_id j)
unfolding eligible lock_for
lock-Claimed q o now lease_seconds j h = (ground arith, ground arith, ground arith, refl, refl)

-- Every job that a relay claims has the relay's priority, waits to be published, is due, and is
-- locked by the relay at the time of the claim.
pub claim_batch-Claimed :
    (q : MessagePriority) (relay_id limit lease_seconds per_user_limit : ℕ) (locked : ℕ → Bool)
    (now : ℕ) (js : List DispatchJob)
    → All
        (Claimed q relay_id now)
        (claim_batch q relay_id limit lease_seconds per_user_limit locked now js).0
claim_batch-Claimed q o limit lease_seconds per_user_limit locked now js =
    claim_batch-All (λ j. Unit {0}) (Claimed q o now) q o limit lease_seconds per_user_limit locked
      now js (All-Unit js) (λ j _ h. lock-Claimed q o now lease_seconds j h)

marked :
    (now relay_id : ℕ) (is : List ℕ) (js : List DispatchJob)
    → All
        (λ j. elem j.id is ≡ true → j.locked_at ≡ some now)
        (update_where (λ j. elem j.id is) (lock_for now relay_id) js)
unfolding lock_for
marked now o is [] = tt
marked now o is (j ∷ js) = elim (Bool-cases (elem j.id is)) [
  | inl e ↦ rw e ((λ h. refl), marked now o is js)
  | inr e ↦ rw e ((λ h. absurd (ground arith)), marked now o is js)
]

pub ids-lock :
    (now relay_id : ℕ) (js : List DispatchJob) → ids (map (lock_for now relay_id) js) ≡ ids js
unfolding lock_for
ids-lock now o [] = refl
ids-lock now o (j ∷ js) = ap (λ is. j.id ∷ is) (ids-lock now o js)

locked-not_free :
    (is : List ℕ) (q : MessagePriority) (now now' lease_seconds relay_id : ℕ) (j : DispatchJob)
    → now' ≤ now + lease_seconds * second
    → (elem j.id is ≡ true → j.locked_at ≡ some now)
    → eligible q now' lease_seconds j ≡ true
    → elem (lock_for now' relay_id j).id is ≡ false
unfolding eligible lock_for
locked-not_free is q now now' lease_seconds o j before held h = elim (Bool-cases (elem j.id is)) [
  | inl e ↦
      let free : is_free (some now) now' lease_seconds ≡ true =
        subst (λ o. is_free o now' lease_seconds ≡ true) (held e) (ground arith) in
      let later = ltb→lt (now + lease_seconds * second) now' free in
      absurd (omega (arith, later, before))
  | inr e ↦ e
]

abbrev Marked : ℕ → List ℕ → DispatchJob → Type 0
Marked now is j = elem j.id is ≡ true → j.locked_at ≡ some now

claim_batch-Marked :
    (q : MessagePriority) (relay_id limit lease_seconds per_user_limit : ℕ) (locked : ℕ → Bool)
    (now : ℕ) (js : List DispatchJob)
    → All
        (Marked now
          (ids (claim_batch q relay_id limit lease_seconds per_user_limit locked now js).0))
        (claim_batch q relay_id limit lease_seconds per_user_limit locked now js).1
unfolding claim_batch
claim_batch-Marked q o limit lease_seconds per_user_limit locked now js =
    let jobs = select_batch locked limit per_user_limit (candidates q now lease_seconds js) in
    subst (λ is. All (Marked now is) (update_where (λ j. elem j.id (ids jobs)) (lock_for now o) js))
      (sym (ids-lock now o jobs)) (marked now o (ids jobs) js)

-- A batch that a relay claims until the lease of an earlier claim has run out shares no job with
-- the batch of that claim, whatever the limits, the priorities and the locked rows of the two.
pub claim_batch-claim_batch :
    (q q' : MessagePriority) (a b limit limit' lease_seconds per_user_limit per_user_limit' : ℕ)
    (locked locked' : ℕ → Bool) (now now' : ℕ) (js : List DispatchJob)
    → now' ≤ now + lease_seconds * second
    → All
        (λ j.
          elem j.id (ids (claim_batch q a limit lease_seconds per_user_limit locked now js).0)
          ≡ false)
        (claim_batch q' b limit' lease_seconds per_user_limit' locked' now'
          (claim_batch q a limit lease_seconds per_user_limit locked now js).1).0
claim_batch-claim_batch q q' a b limit limit' lease_seconds per_user_limit per_user_limit' locked
      locked' now now' js before =
    let first = claim_batch q a limit lease_seconds per_user_limit locked now js in
    claim_batch-All (Marked now (ids first.0)) (λ j. elem j.id (ids first.0) ≡ false) q' b limit'
      lease_seconds per_user_limit' locked' now' first.1
      (claim_batch-Marked q a limit lease_seconds per_user_limit locked now js)
      (λ j held h. locked-not_free (ids first.0) q' now now' lease_seconds b j before held h)
