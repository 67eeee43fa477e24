-- ===== src/Scripts/Attempts.antt =====
-- One attempt of `scenario_balance_limit` of scripts/loadtest.py: when the gateway accepts it, and
-- what it leaves to the others.
use abrio.Prelude.{
  ℕ, ◌-◌, ◌≤◌, ◌<◌, ◌≡◌, ◌≢◌, refl, sym, ap, subst, ◌∙◌, Bool, true, false, some, List, [], ◌∷◌,
  ◌++◌, All, All-imply, All-and, arith,
}
use abrio.Prelude.Int.{pos, ◌+ℤ◌, ◌≤ℤ◌, ◌<ℤ◌, ltb_ℤ, leb_ℤ, int_laws, pos_part, neg_part}
use abrio.Domain.Enums.{MessagePriority}
use abrio.Database.Table.{find, save, find_key, find-append_none, find-save_self}
use abrio.Database.Rows.{Balance, Message, Database, balance_key, job_key}
use abrio.Database.Session.{ok}
use abrio.Database.Constraints.{numeric_limit, message_conflicts}
use abrio.Repositories.Jobs
use abrio.Metrics.{
  World, SubmissionType, RejectionReason, record_messages_submitted, record_submission_rejected,
}
use abrio.UseCases.Submission.{Prices, new_message, new_jobs, create_message, get_message_cost}
use abrio.Ledger.Consistent.{Inv, IsSound}
use abrio.Domain.Errors.{status_code}
use abrio.Ledger.Accounts.{reserved_more}
use abrio.Ledger.Submission.{submitted}
use abrio.Ledger.Requests.{create_message-Safe}
use abrio.Ledger.Admission.{IsFresh, IsAccount}
use abrio.Ledger.Verdict.{verdict, create_message-verdict}
use abrio.Api.Schemas.{valid_request}
use abrio.Api.Routes.{send_message, respond, app_error_handler}
use abrio.Scripts.Loadtest.{Attempt, payload, send}

-- Two attempts that share no id and no key.
pub record IsApart (a b : Attempt) : Type 0 where
  pub message_ids : a.draws.message_id 0 ≢ b.draws.message_id 0
  pub job_ids : a.draws.job_id 0 ≢ b.draws.job_id 0
  pub keys : a.idempotency_key ≢ b.idempotency_key

abbrev pub AllApart : List Attempt → Type 0
AllApart [] = Unit
AllApart (a ∷ rest) = All (IsApart a) rest × AllApart rest

-- The row that an attempt asks for.
abbrev pub row : Prices → ℕ → Attempt → Message
row p u a = new_message p a.now u (a.draws.message_id 0) (payload u MessagePriority.normal a).item

conflicts-append :
    (m x : Message) (ms : List Message)
    → message_conflicts m ms ≡ false
    → x.id ≢ m.id
    → x.idempotency_key ≢ m.idempotency_key
    → message_conflicts m (ms ++ x ∷ []) ≡ false
unfolding message_conflicts
conflicts-append m x [] h i k = ground arith
conflicts-append m x (y ∷ ms) h i k = ground (arith, conflicts-append m x ms)

abbrev pub AllFresh : Prices → ℕ → Database → List Attempt → Type 0
AllFresh p u db = All (λ a. IsFresh (a.draws.job_id 0) (row p u a) db)

module _ (p : Prices) (u : ℕ) where
  -- What an attempt stores leaves the others fresh.
  pub submitted-IsFresh :
      (a x : Attempt) (b : Balance) (db : Database)
      → IsApart a x
      → IsFresh (x.draws.job_id 0) (row p u x) db
      → IsFresh
          (x.draws.job_id 0)
          (row p u x)
          (submitted a.draws a.now (row p u a).cost (row p u a ∷ []) b db)
  unfolding new_message new_jobs Jobs.create
  submitted-IsFresh a x b db apart fresh = record {
    unused =
        conflicts-append (row p u x) (row p u a) db.messages fresh.unused apart.message_ids
          apart.keys;
    drawn =
        find-append_none job_key (x.draws.job_id 0) db.jobs
          (new_jobs a.draws a.now 0 (row p u a ∷ [])) fresh.drawn
        ∙ ground (arith, apart.job_ids);
  }

  -- What is left of an accepted attempt.
  abbrev pub stored : Attempt → Balance → World → World
  stored a b w =
      record_messages_submitted MessagePriority.normal SubmissionType.single 1
        (record w { db = submitted a.draws a.now (row p u a).cost (row p u a ∷ []) b w.db })

  pub AllFresh-stored :
      (a : Attempt) (rest : List Attempt) (b : Balance) (w : World)
      → All (IsApart a) rest
      → AllFresh p u w.db rest
      → AllFresh p u (stored a b w).db rest
  unfolding record_messages_submitted
  AllFresh-stored a rest b w apart fresh =
      All-imply _ _ rest (λ x h. submitted-IsFresh a x b w.db h.0 h.1)
        (All-and _ _ rest apart fresh)

-- And of a refused one.
abbrev pub refused : World → World
refused w = record_submission_rejected RejectionReason.insufficient_balance SubmissionType.single w

-- A user with a consistent balance of which `left` is available, far from the end of the column.
pub record IsReady (u c left : ℕ) (b : Balance) (db : Database) : Type 0 where
  pub inv : Inv db
  pub account : IsAccount u b db
  pub available : b.credits ≡ b.reserved_credits +ℤ pos left
  pub roomy : (b.credits +ℤ pos c) <ℤ numeric_limit

module _ (digit : ℕ → Bool) (p : Prices) (u c : ℕ) (price : p.cost_per_message ≡ pos c)
    (dear : 0 < c) where
  pub row_cost : (a : Attempt) → (row p u a).cost ≡ pos c
  unfolding new_message get_message_cost
  row_cost a = price

  row_priority : (a : Attempt) → (row p u a).priority ≡ MessagePriority.normal
  unfolding new_message
  row_priority a = refl

  row_user : (a : Attempt) → (row p u a).user_id ≡ u
  unfolding new_message
  row_user a = refl

  module _ (a : Attempt) (left : ℕ) (b : Balance) (w : World) (ready : IsReady u c left b w.db)
      (valid : valid_request digit (payload u MessagePriority.normal a) ≡ true)
      (fresh : IsFresh (a.draws.job_id 0) (row p u a) w.db) where
    sound : IsSound b
    sound = (ready.inv.funded u b ready.account.balance).0

    pub below : pos c <ℤ numeric_limit
    below = omega (int_laws, sound.nonneg, sound.covered, ready.roomy)

    decided :
        create_message p a.draws a.now (payload u MessagePriority.normal a) w
        ≡ verdict a.draws a.now (payload u MessagePriority.normal a) (row p u a) b w
    decided =
        create_message-verdict p a.draws a.now (payload u MessagePriority.normal a) b w ready.inv
          (rw (row_user a) ready.account) fresh (rw (row_cost a) (omega arith))
          (rw (row_cost a) below)

    bounded : ltb_ℤ (b.reserved_credits +ℤ (row p u a).cost) numeric_limit ≡ true
    bounded = rw (row_cost a) (ground (arith, fits))
      where
        fits : (b.reserved_credits +ℤ pos c) <ℤ numeric_limit
        fits = omega (int_laws, sound.covered, ready.roomy)

    pub accepted_as :
        c ≤ left
        → create_message p a.draws a.now (payload u MessagePriority.normal a) w
          ≡ (ok (row p u a), stored p u a b w)
    accepted_as h = decided ∙ rw (bounded, paid, row_priority a) refl
      where
        covered : (b.reserved_credits +ℤ pos c) ≤ℤ b.credits
        covered = omega (int_laws, ap pos_part ready.available, ap neg_part ready.available)

        paid : leb_ℤ (b.reserved_credits +ℤ (row p u a).cost) b.credits ≡ true
        paid = rw (row_cost a) (ground (arith, covered))

    pub send-accepts :
        c ≤ left → send digit p u MessagePriority.normal a w ≡ (201, stored p u a b w)
    unfolding send send_message respond
    send-accepts h = rw (valid, accepted_as h) refl

    owner : b.user_id ≡ u
    owner = find_key balance_key u w.db.balances b ready.account.balance

    pub send-rejects : left < c → send digit p u MessagePriority.normal a w ≡ (402, refused w)
    unfolding send send_message respond app_error_handler status_code
    send-rejects h = rw (valid, decided, bounded, short) refl
      where
        over : b.credits <ℤ (b.reserved_credits +ℤ pos c)
        over = omega (int_laws, ap pos_part ready.available, ap neg_part ready.available)

        short : leb_ℤ (b.reserved_credits +ℤ (row p u a).cost) b.credits ≡ false
        short = rw (row_cost a) (ground (arith, over))

    stored_balance :
        find balance_key u (save balance_key (reserved_more b (row p u a).cost) w.db.balances)
        ≡ some (reserved_more b (row p u a).cost)
    stored_balance =
        subst
          (λ k.
            find balance_key k (save balance_key (reserved_more b (row p u a).cost) w.db.balances)
            ≡ some (reserved_more b (row p u a).cost))
          owner
          (find-save_self balance_key (reserved_more b (row p u a).cost) b w.db.balances (
            subst (λ k. find balance_key k w.db.balances ≡ some b) (sym owner)
              ready.account.balance))

    pub stored-IsReady :
        c ≤ left → IsReady u c (left - c) (reserved_more b (row p u a).cost) (stored p u a b w).db
    unfolding record_messages_submitted
    stored-IsReady h = record {
      inv =
          subst (λ x. Inv x.1.db) (accepted_as h)
            (create_message-Safe p a.draws a.now w ready.inv
              (payload u MessagePriority.normal a)).0;
      account = record { registered = ready.account.registered; balance = stored_balance };
      available =
          rw (row_cost a)
            (omega (int_laws, ap pos_part ready.available, ap neg_part ready.available));
      roomy = ready.roomy;
    }
