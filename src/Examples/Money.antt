-- ===== src/Examples/Money.antt =====
-- The ledger on concrete histories: two submissions, a delivery, a top-up, a zeroed account.
use abrio.Prelude.{◌≡◌, refl, [], ◌∷◌, some, true, false, ◌==◌, ◌&&◌, arith}
use abrio.Prelude.Int.{pos, ◌+ℤ◌, ◌<ℤ◌, leb_ℤ}
use abrio.Domain.Enums.{MessageStatus, PaymentStatus}
use abrio.Database.Table.{find}
use abrio.Database.Rows.{Balance, Database, balance_key}
use abrio.Database.Session.{ok}
use abrio.Database.Constraints.{update_balance, in_range}
use abrio.Repositories.Balances
use abrio.Repositories.Messages.{first}
use abrio.Metrics.{SubmissionType, record_idempotent_replay}
use abrio.UseCases.Submission.{create_message, batch_create_message, get_message_cost}
use abrio.UseCases.Dispatch.{claim, record_tx}
use abrio.Ledger.Consistent.{Inv, total_in}
use abrio.Ledger.Delivery.{Lands, claim-Lands, record_tx-Lands}
use abrio.Ledger.Requests.{create_message-Safe}
use abrio.Ledger.Deposits.{zero_user_credits-Breaks}
use abrio.Ledger.Batches.{AllOrNothing, batch_create_message-AllOrNothing}
use abrio.Ledger.Answers.{create_message-replay}
use abrio.Ledger.System.{Step, Run, Run-Inv, Run-worth, worth, deposited}
use abrio.Monitor.Collect.{collect_payment_consistency_metrics}
use abrio.Monitor.Alarms.{silent, Run-silent}
use abrio.Examples.Data.{
  prices, draws, start, start-Inv, world, request, batch_request, account, message, pending_job,
  with, settings, clock, delivered,
}

abbrev submitted_db : Database
submitted_db = (create_message prices draws 1000 request world).1.db

submitted-Inv : Inv submitted_db
submitted-Inv = (create_message-Safe prices draws 1000 world start-Inv request).0

claim-Lands_example : Lands submitted_db (claim settings (clock 3000) 200 9 submitted_db)
claim-Lands_example = claim-Lands settings (clock 3000) 200 9 submitted_db submitted-Inv

record_tx-Lands_example :
    Lands submitted_db (record_tx settings (clock 3000) 0 200 9 delivered submitted_db)
record_tx-Lands_example =
    record_tx-Lands settings (clock 3000) 0 delivered (λ e. omega arith) submitted_db submitted-Inv
      200 9

abbrev topped : Database
topped = record start { balances = account (pos 1500) (pos 0) ∷ [] }

topup_run : Balances.topup_user_credits 1 (pos 500) start ≡ ok (account (pos 1500) (pos 0), topped)
unfolding Balances.topup_user_credits update_balance ◌+ℤ◌
topup_run = refl

-- Submit a message, then top up.
history : Run start (record { user_id = 1; amount = pos 500 } ∷ []) topped
history = Run.tops_up 1 (pos 500) (account (pos 1500) (pos 0)) [] start topped Run.begins topup_run

abbrev after : Database
after = (create_message prices draws 1000 request (record { db = topped; metrics = [] })).1.db

longer : Run start (record { user_id = 1; amount = pos 500 } ∷ []) after
longer =
    Run.steps (record { user_id = 1; amount = pos 500 } ∷ []) topped after history
      (Step.submits prices draws 1000 request (record { db = topped; metrics = [] }))

Run-Inv_example : Inv after
Run-Inv_example =
    Run-Inv start after (record { user_id = 1; amount = pos 500 } ∷ []) longer start-Inv

Run-silent_example : collect_payment_consistency_metrics topped ≡ silent
Run-silent_example =
    Run-silent start topped (record { user_id = 1; amount = pos 500 } ∷ []) history start-Inv
      (refl, tt)

Run-worth_example :
    (b' : Balance) × (find balance_key 1 after.balances ≡ some b')
    × (worth 1 b' after
        ≡ worth 1 (account (pos 1000) (pos 0)) start
          +ℤ deposited 1 (record { user_id = 1; amount = pos 500 } ∷ []))
Run-worth_example =
    Run-worth start after (record { user_id = 1; amount = pos 500 } ∷ []) longer start-Inv 1
      (account (pos 1000) (pos 0)) refl

abbrev owing : Database
owing =
    with (account (pos 1000) (pos 50)) (message MessageStatus.queued PaymentStatus.reserved)
      pending_job

abbrev zeroed : Database
zeroed =
    with (account (pos 0) (pos 0)) (message MessageStatus.queued PaymentStatus.reserved) pending_job

zero_run : Balances.zero_user_credits 1 owing ≡ ok (account (pos 0) (pos 0), zeroed)
unfolding Balances.zero_user_credits update_balance
zero_run = refl

owes : pos 0 <ℤ total_in PaymentStatus.reserved 1 owing.messages
unfolding ◌+ℤ◌
owes = omega arith

zero_user_credits-Breaks_example : ¬ Inv zeroed
zero_user_credits-Breaks_example =
    zero_user_credits-Breaks 1 owing zeroed (account (pos 0) (pos 0)) zero_run owes

has_message :
    first
      (λ y. y.idempotency_key == request.item.idempotency_key && y.user_id == request.user_id)
      owing.messages
    ≡ some (message MessageStatus.queued PaymentStatus.reserved)
unfolding first
has_message = refl

price_range : in_range (get_message_cost prices request.item) ≡ true
unfolding get_message_cost
price_range = refl

price_positive : leb_ℤ (get_message_cost prices request.item) (pos 0) ≡ false
unfolding get_message_cost
price_positive = refl

create_message-replay_example :
    create_message prices draws 5000 request (record { db = owing; metrics = [] }) ≡ (
      ok (message MessageStatus.queued PaymentStatus.reserved),
      record_idempotent_replay SubmissionType.single (record { db = owing; metrics = [] }),
    )
create_message-replay_example =
    create_message-replay prices draws 5000 request (record { db = owing; metrics = [] })
      (message MessageStatus.queued PaymentStatus.reserved) has_message price_range price_positive

batch_create_message-AllOrNothing_example :
    AllOrNothing prices draws 1000 batch_request world
      (batch_create_message prices draws 1000 batch_request world)
batch_create_message-AllOrNothing_example =
    batch_create_message-AllOrNothing prices draws 1000 batch_request world start-Inv
