-- ===== src/Examples/Data.antt =====
-- The rows, clocks and settings of the examples.
use abrio.Prelude.{
  ℕ, ◌+◌, ◌≡◌, refl, subst, inl, inr, some, none, [], ◌∷◌, codes, ◌==◌, Bool-cases, arith,
}
use abrio.Prelude.Int.{ℤ, pos}
use abrio.Domain.Enums.{
  MessagePriority, MessageStatus, PaymentStatus, DispatchJobStatus, ProviderOutcome,
}
use abrio.Database.Table.{find}
use abrio.Database.Rows.{Balance, Message, DispatchJob, Database, balance_key}
use abrio.Metrics.{World}
use abrio.UseCases.Submission.{Prices, Draws, Item, MessageRequest, BatchMessageRequest}
use abrio.UseCases.Dispatch.{Clock, DispatchSettings, ProviderResult}
use abrio.Ledger.Consistent.{Inv, IsSound}

abbrev pub prices : Prices
prices = record { cost_per_message = pos 50; cost_per_express_message = pos 80 }

abbrev pub draws : Draws
draws = record { message_id = λ n. 100 + n; job_id = λ n. 200 + n }

abbrev pub account : ℤ → ℤ → Balance
account credits reserved = record { user_id = 1; credits = credits; reserved_credits = reserved }

abbrev pub start : Database
start = record {
  users = record { id = 1; name = codes "Ann" } ∷ [];
  balances = account (pos 1000) (pos 0) ∷ [];
  messages = [];
  jobs = [];
}

start-IsSound : IsSound (account (pos 1000) (pos 0))
start-IsSound = record { nonneg = omega arith; covered = omega arith; bounded = omega arith }

start_funded :
    (u : ℕ) (b : Balance)
    → find balance_key u start.balances ≡ some b
    → IsSound b × (b.reserved_credits ≡ pos 0)
start_funded u b h = elim (Bool-cases (1 == u)) [
  | inl e ↦
      let same : account (pos 1000) (pos 0) ≡ b = ground arith in
      subst (λ x. IsSound x × (x.reserved_credits ≡ pos 0)) same (start-IsSound, refl)
  | inr n ↦ absurd (ground arith)
]

pub start-Inv : Inv start
start-Inv = record {
  funded = start_funded;
  priced = tt;
  backed = tt;
  linked = λ k j h. cc;
  unshared = λ k l i j h. cc;
  keyed = tt;
}

abbrev pub world : World
world = record { db = start; metrics = [] }

abbrev pub item : ℕ → MessagePriority → Item
item key priority = record {
  recipient = codes "+98912";
  body = codes "hi";
  priority = priority;
  idempotency_key = key;
}

abbrev pub request : MessageRequest
request = record { user_id = 1; item = item 7 MessagePriority.normal }

abbrev pub batch_request : BatchMessageRequest
batch_request = record {
  user_id = 1;
  messages = item 8 MessagePriority.normal ∷ item 9 MessagePriority.express ∷ [];
}

abbrev pub message : MessageStatus → PaymentStatus → Message
message status payment = record {
  id = 100;
  user_id = 1;
  recipient = codes "+98912";
  body = codes "hi";
  cost = pos 50;
  priority = MessagePriority.normal;
  idempotency_key = 7;
  status = status;
  payment_status = payment;
  created_at = 1000;
}

abbrev pub pending_job : DispatchJob
pending_job = record {
  id = 200;
  message_id = 100;
  user_id = 1;
  payload = record {
    message_id = 100;
    user_id = 1;
    recipient = codes "+98912";
    body = codes "hi";
    priority = MessagePriority.normal;
    cost = pos 50;
  };
  priority = MessagePriority.normal;
  status = DispatchJobStatus.pending;
  retry_count = 0;
  delivery_attempts = 0;
  available_at = 1000;
  locked_at = none;
  locked_by = none;
  published_at = none;
  completed_at = none;
  provider_message_id = none;
  last_error = none;
  created_at = 1000;
}

abbrev pub published_job : DispatchJob
published_job = record pending_job {
  status = DispatchJobStatus.published;
  published_at = some 2000;
}

abbrev pub sending_job : DispatchJob
sending_job = record published_job {
  status = DispatchJobStatus.dispatching;
  locked_at = some 3002;
  locked_by = some 9;
}

abbrev pub with : Balance → Message → DispatchJob → Database
with b m j = record start { balances = b ∷ []; messages = m ∷ []; jobs = j ∷ [] }

abbrev pub settings : DispatchSettings
settings = record {
  max_delivery_attempts = 3;
  express_ttl_seconds = some 60;
  worker_lease_seconds = 60;
}

abbrev pub clock : ℕ → Clock
clock t = record { checked_at = t; deadline_at = t + 1; written_at = t + 2; measured_at = t + 3 }

abbrev pub delivered : ProviderResult
delivered = record {
  outcome = ProviderOutcome.success;
  provider_message_id = some (codes "p-1");
  error = none;
}

abbrev pub unreachable : ProviderResult
unreachable = record {
  outcome = ProviderOutcome.temporary_failure;
  provider_message_id = none;
  error = some (codes "down");
}
