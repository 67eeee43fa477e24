-- ===== src/Ledger/Operations.antt =====
-- The relay's updates of jobs on a consistent database.
use abrio.Prelude.{
  ℕ, ◌≡◌, refl, sym, subst, ap, ◌∙◌, inl, inr, Bool, true, false, some, none, List, [], ◌∷◌, ◌==◌,
  Text, if◌then◌else◌, Bool-cases, ==→eq, arith, elem, take, keep, zero, suc,
}
use abrio.Domain.Enums.{PaymentStatus, DispatchJobStatus, MessagePriority}
use abrio.Database.Table.{find, find_key, Keyed}
use abrio.Database.Rows.{Balance, Message, DispatchJob, Database, User, message_key, job_key}
use abrio.Repositories.Jobs
use abrio.Repositories.Jobs.{update_where, is_waiting, is_older}
use abrio.Ledger.Consistent.{Inv, Linked, Unshared, agrees}

-- An UPDATE that keeps each row's id and message, and moves no job in or out of its last states.
module _ (p : DispatchJob → Bool) (f : DispatchJob → DispatchJob)
    (ids : (j : DispatchJob) → (f j).id ≡ j.id)
    (links : (j : DispatchJob) → (f j).message_id ≡ j.message_id) where
  abbrev changed : DispatchJob → DispatchJob
  changed j = if p j then f j else j

  pub find-update :
      (k : ℕ) (x : DispatchJob) (js : List DispatchJob)
      → find job_key k (update_where p f js) ≡ some x
      → (j : DispatchJob) × (find job_key k js ≡ some j) × (x ≡ changed j)
  find-update k x [] h = cc
  find-update k x (j ∷ js) h = elim (Bool-cases (j.id == k)) [
    | inl e ↦ (j, ground arith, ground (arith, ids j))
    | inr n ↦ let (y, hy, ey) = find-update k x js (ground (arith, ids j)) in (y, ground arith, ey)
  ]

  changed_id : (j : DispatchJob) → (changed j).id ≡ j.id
  changed_id j = ground (arith, ids j)

  changed_link : (j : DispatchJob) → (changed j).message_id ≡ j.message_id
  changed_link j = ground (arith, links j)

  Unshared-update : (js : List DispatchJob) → Unshared js → Unshared (update_where p f js)
  Unshared-update js un k l x y hx hy e =
      let (i, hi, ei) = find-update k x js hx in
      let (j, hj, ej) = find-update l y js hy in
      un k l i j hi hj (
        sym (changed_link i)
        ∙ ap (λ z. z.message_id) (sym ei)
        ∙ e
        ∙ ap (λ z. z.message_id) ej
        ∙ changed_link j)

  find-update_none :
      (k : ℕ) (js : List DispatchJob)
      → find job_key k js ≡ none
      → find job_key k (update_where p f js) ≡ none
  find-update_none k [] h = refl
  find-update_none k (j ∷ js) h = ground (arith, ids j, find-update_none k js)

  Keyed-update : (js : List DispatchJob) → Keyed job_key js → Keyed job_key (update_where p f js)
  Keyed-update [] h = tt
  Keyed-update (j ∷ js) h = (
    subst (λ k. find job_key k (update_where p f js) ≡ none) (sym (changed_id j))
        (find-update_none j.id js h.0),
    Keyed-update js h.1,
  )

  module _ (js : List DispatchJob)
      (open_jobs : (k : ℕ) (j : DispatchJob) (s : PaymentStatus)
        → find job_key k js ≡ some j
        → p j ≡ true
        → agrees j.status s ≡ true
        → agrees (f j).status s ≡ true) where
    changed-agrees :
        (k : ℕ) (j : DispatchJob) (s : PaymentStatus)
        → find job_key k js ≡ some j
        → agrees j.status s ≡ true
        → agrees (changed j).status s ≡ true
    changed-agrees k j s hj h = elim (Bool-cases (p j)) [
      | inl e ↦ rw e (open_jobs k j s hj e h)
      | inr n ↦ rw n h
    ]

    Linked-update : (ms : List Message) → Linked ms js → Linked ms (update_where p f js)
    Linked-update ms lk k x h =
        let (j, hj, ex) = find-update k x js h in
        let (m, hm, ag) = lk k j hj in
        (
          m,
          subst (λ i. find message_key i ms ≡ some m)
              (sym (ap (λ z. z.message_id) ex ∙ changed_link j)) hm,
          subst (λ z. agrees z.status m.payment_status ≡ true) (sym ex)
              (changed-agrees k j m.payment_status hj ag),
        )

    -- Such an update keeps the invariant.
    pub update-Inv :
        (us : List User) (bs : List Balance) (ms : List Message)
        → Inv (record { users = us; balances = bs; messages = ms; jobs = js })
        → Inv (record { users = us; balances = bs; messages = ms; jobs = update_where p f js })
    update-Inv us bs ms inv = record {
      funded = inv.funded;
      priced = inv.priced;
      backed = inv.backed;
      linked = Linked-update ms inv.linked;
      unshared = Unshared-update js inv.unshared;
      keyed = Keyed-update js inv.keyed;
    }

waiting-agrees :
    (st st' : DispatchJobStatus) (s : PaymentStatus)
    → is_waiting st ≡ true
    → is_waiting st' ≡ true
    → agrees st s ≡ true
    → agrees st' s ≡ true
waiting-agrees st st' s h h' a = ground arith

abbrev pub with_table : List DispatchJob → Database → Database
with_table js db = record db { jobs = js }

-- The relay's record of what it published, and of what it could not publish.
pub mark_published-Inv :
    (job_ids : List ℕ) (relay_id now : ℕ) (db : Database)
    → Inv db
    → Inv (with_table (Jobs.mark_published job_ids relay_id now db.jobs) db)
unfolding Jobs.mark_published
mark_published-Inv job_ids relay_id now db inv =
    update-Inv (Jobs.still_claimed job_ids relay_id) (Jobs.set_published now) (λ j. refl)
      (λ j. refl) db.jobs (λ k j s hj e a. ground arith) db.users db.balances db.messages inv

pub mark_publish_retry-Inv :
    (job_ids : List ℕ) (relay_id : ℕ) (error : Text) (delay now : ℕ) (db : Database)
    → Inv db
    → Inv (with_table (Jobs.mark_publish_retry job_ids relay_id error delay now db.jobs) db)
unfolding Jobs.mark_publish_retry
mark_publish_retry-Inv job_ids relay_id error delay now db inv =
    update-Inv (Jobs.still_claimed job_ids relay_id) (Jobs.set_publish_retry now error delay)
      (λ j. refl) (λ j. refl) db.jobs (λ k j s hj e a. ground arith) db.users db.balances
      db.messages inv

elem-take : (a n : ℕ) (xs : List ℕ) → elem a (take n xs) ≡ true → elem a xs ≡ true
elem-take a zero xs h = cc
elem-take a (suc n) [] h = h
elem-take a (suc n) (x ∷ xs) h = ground (arith, elem-take a n xs)

module _ (p : DispatchJob → Bool) where
  selected_none :
      (k : ℕ) (js : List DispatchJob)
      → find job_key k js ≡ none
      → elem k (Jobs.ids (keep p js)) ≡ false
  selected_none k [] h = refl
  selected_none k (x ∷ js) h = ground (arith, selected_none k js)

  selected :
      (k : ℕ) (j : DispatchJob) (js : List DispatchJob)
      → Keyed job_key js
      → find job_key k js ≡ some j
      → elem k (Jobs.ids (keep p js)) ≡ true
      → p j ≡ true
  selected k j [] kd hj h = cc
  selected k j (x ∷ js) kd hj h = elim (Bool-cases (x.id == k)) [
    | inl e ↦
        let ex : x ≡ j = ground arith in
        let gone : find job_key k js ≡ none =
          subst (λ i. find job_key i js ≡ none) (==→eq x.id k e) kd.0 in
        elim (Bool-cases (p x)) [
          | inl yes_p ↦ subst (λ y. p y ≡ true) ex yes_p
          | inr no_p ↦ ground (arith, selected_none k js gone)
        ]
    | inr n ↦ selected k j js kd.1 (ground arith) (ground arith)
  ]

  -- In a table with distinct ids, a row whose id a test selected passes the test.
  pub elem-ids :
      (n k : ℕ) (j : DispatchJob) (js : List DispatchJob)
      → Keyed job_key js
      → find job_key k js ≡ some j
      → elem j.id (take n (Jobs.ids (keep p js))) ≡ true
      → p j ≡ true
  elem-ids n k j js kd hj h =
      let own : j.id ≡ k = find_key job_key k js j hj in
      selected k j js kd hj (
        elem-take k n (Jobs.ids (keep p js))
          (subst (λ i. elem i (take n (Jobs.ids (keep p js))) ≡ true) own h))

stale-agrees :
    (priority : MessagePriority) (now lease_seconds : ℕ) (j : DispatchJob) (s : PaymentStatus)
    → Jobs.is_stale priority now lease_seconds j ≡ true
    → agrees j.status s ≡ true
    → agrees DispatchJobStatus.retry s ≡ true
unfolding Jobs.is_stale
stale-agrees priority now lease_seconds j s h a = ground arith

-- The reaper takes back only jobs that are not over.
pub reclaim-Inv :
    (priority : MessagePriority) (now lease_seconds limit : ℕ) (db : Database)
    → Inv db
    → Inv (with_table (Jobs.reclaim_stale_inflight priority now lease_seconds limit db.jobs).1 db)
unfolding Jobs.reclaim_stale_inflight
reclaim-Inv priority now lease_seconds limit db inv =
    let stale = Jobs.is_stale priority now lease_seconds in
    update-Inv (λ j. elem j.id (take limit (Jobs.ids (keep stale db.jobs)))) (Jobs.reclaim now)
      (λ j. refl) (λ j. refl) db.jobs
      (λ k j s hj e a.
        stale-agrees priority now lease_seconds j s
          (elem-ids stale limit k j db.jobs inv.keyed hj e) a)
      db.users db.balances db.messages inv
