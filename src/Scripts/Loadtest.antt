-- ===== src/Scripts/Loadtest.antt =====
-- scripts/loadtest.py: the report, the requests, and the scenarios of the balance limit and of a
-- repeated key. The database serialises concurrent requests; the list of attempts is the order it
-- gives them.
use abrio.Prelude.{
  ℕ, ◌+◌, Bool, true, ◌&&◌, List, [], ◌∷◌, ◌++◌, Text, codes, take, count, ◌==◌, Option, some, none,
}
use abrio.Prelude.Int.{ℤ, pos, leb_ℤ, ◌-ℤ◌}
use abrio.Domain.Enums.{MessagePriority}
use abrio.Database.Table.{find}
use abrio.Database.Rows.{Balance, Message, balance_key, available_credits}
use abrio.Metrics.{World}
use abrio.UseCases.Submission.{Prices, Draws, MessageRequest}
use abrio.Api.Routes.{Content, Response, send_message}

-- `Report.checks`, without the labels.
unfoldable pub check : Bool → List Bool → List Bool
check ok checks = checks ++ ok ∷ []

unfoldable pub all_ok : List Bool → Bool
all_ok [] = true
all_ok (ok ∷ checks) = ok && all_ok checks

abbrev pub recipient : Text
recipient = codes "+989121234567"

-- One call of `send`: the text, the key that `uuid4` draws, and what the server draws for it.
pub record Attempt : Type 0 where
  pub body : Text
  pub idempotency_key : ℕ
  pub draws : Draws
  pub now : ℕ

abbrev pub payload : ℕ → MessagePriority → Attempt → MessageRequest
payload user_id priority a = record {
  user_id = user_id;
  item = record {
    recipient = recipient;
    body = take 70 a.body;
    priority = priority;
    idempotency_key = a.idempotency_key;
  };
}

abbrev status_of : {A : Type 0} → Response A × World → ℕ × World
status_of (r, w) = (r.status, w)

-- The status of the answer.
unfoldable pub send : (ℕ → Bool) → Prices → ℕ → MessagePriority → Attempt → World → ℕ × World
send digit p user_id priority a w =
    status_of (send_message digit p a.draws a.now (payload user_id priority a) w)

abbrev cons_status : ℕ → List ℕ × World → List ℕ × World
cons_status s (ss, w) = (s ∷ ss, w)

-- `statuses` of `scenario_balance_limit`.
unfoldable pub statuses : (ℕ → Bool) → Prices → ℕ → List Attempt → World → List ℕ × World
statuses digit p user_id [] w = ([], w)
statuses digit p user_id (a ∷ attempts) w =
    let (s, w') = send digit p user_id MessagePriority.normal a w in
    cons_status s (statuses digit p user_id attempts w')

unfoldable pub accepted : List ℕ → ℕ
accepted = count (λ s. s == 201)

unfoldable pub rejected_402 : List ℕ → ℕ
rejected_402 = count (λ s. s == 402)

-- The checks of `scenario_balance_limit` on the statuses and the balance that it reads last.
unfoldable pub scenario_balance_limit : ℕ → ℕ → List ℕ → ℤ → List Bool → List Bool
unfolding check accepted rejected_402
scenario_balance_limit limit_credits limit_attempts ss available report =
    check (leb_ℤ (pos 0) available) (
      check (accepted ss + rejected_402 ss == limit_attempts)
        (check (accepted ss == limit_credits) report))

-- `send_returning_json`, which does not cut the text.
unfoldable pub send_returning_json :
    (ℕ → Bool) → Prices → ℕ → Attempt → World → Response Message × World
send_returning_json digit p user_id a w =
    send_message digit p a.draws a.now
      (record {
        user_id = user_id;
        item = record {
          recipient = recipient;
          body = a.body;
          priority = MessagePriority.normal;
          idempotency_key = a.idempotency_key;
        };
      })
      w

-- `resp.raise_for_status(); return resp.json()`; `none`: it raises.
abbrev pub json_of : Response Message → Option Message
json_of r = elim r.content [ Content.model m ↦ some m | _ ↦ none ]

-- The checks of `scenario_idempotency` on the two messages and the balance that it reads last; 1.0
-- is 100 cents.
unfoldable pub idempotency_checks :
    Option Message → Option Message → Option Balance → List Bool → Option (List Bool)
unfolding check available_credits
idempotency_checks (some first) (some second) (some bal) report =
    let charged = bal.credits -ℤ available_credits bal in
    some (
      check (leb_ℤ charged (pos 100) && leb_ℤ (pos 100) charged)
        (check (first.id == second.id) report))
idempotency_checks _ _ _ report = none

-- `scenario_idempotency` from its first send on, with what the rest of the system does between the
-- two sends, and between them and the read of the balance. `none`: a request raises.
unfoldable pub scenario_idempotency :
    (ℕ → Bool)
    → Prices
    → ℕ
    → Attempt
    → Attempt
    → (World → World)
    → (World → World)
    → World
    → List Bool
    → Option (List Bool)
unfolding send_returning_json idempotency_checks
scenario_idempotency digit p user_id first second before_second before_read w report =
    let (r1, w1) = send_returning_json digit p user_id first w in
    let (r2, w2) = send_returning_json digit p user_id second (before_second w1) in
    idempotency_checks (json_of r1) (json_of r2)
      (find balance_key user_id (before_read w2).db.balances) report
