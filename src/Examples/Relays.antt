-- ===== src/Examples/Relays.antt =====
-- Relays on one pending job.
use abrio.Prelude.{
  List, ◌≤◌, ◌<◌, ◌≡◌, refl, [], ◌∷◌, true, false, All, elem, length, ◌==◌, arith, some, ℕ, Bool,
}
use abrio.Domain.Enums.{MessagePriority}
use abrio.Database.Rows.{DispatchJob}
use abrio.Repositories.Jobs.{ids}
use abrio.Repositories.Claim.{claim_batch, eligible, candidates, sort_by, insert_by}
use abrio.Relay.{PriorityConfig, ClaimedJob}
use abrio.Metrics.{World}
use abrio.Outbox.Claiming.{claim_batch-Claimed, claim_batch-claim_batch, Claimed}
use abrio.Outbox.Filling.{claim_batch-fills}
use abrio.Outbox.Serving.{fronts, claim_batch-serves}
use abrio.Examples.Data.{world, pending_job}

abbrev claim_once : List DispatchJob × List DispatchJob
claim_once = claim_batch MessagePriority.normal 4 10 60 5 (λ i. false) 2000 (pending_job ∷ [])

claim_batch-Claimed_example : All (Claimed MessagePriority.normal 4 2000) claim_once.0
claim_batch-Claimed_example =
    claim_batch-Claimed MessagePriority.normal 4 10 60 5 (λ i. false) 2000 (pending_job ∷ [])

claim_batch-claim_batch_example :
    All
      (λ j. elem j.id (ids claim_once.0) ≡ false)
      (claim_batch MessagePriority.normal 6 10 60 5 (λ i. false) 3000 claim_once.1).0
claim_batch-claim_batch_example =
    claim_batch-claim_batch MessagePriority.normal MessagePriority.normal 4 6 10 10 60 5 5
      (λ i. false) (λ i. false) 2000 3000 (pending_job ∷ []) (omega arith)

claim_batch-fills_example :
    (length claim_once.0 ≤ 10)
    × (length claim_once.0 < 10
        → All
            (λ j.
              eligible MessagePriority.normal 2000 60 j ≡ true
              → false ≡ false
              → elem j.id (ids claim_once.0) ≡ true)
            (pending_job ∷ []))
claim_batch-fills_example =
    claim_batch-fills MessagePriority.normal 4 10 60 5 2000 (λ i. false) (pending_job ∷ [])
      (refl, tt)

-- A job of another user behind one of the first.
abbrev queue : List DispatchJob
queue =
    pending_job
    ∷ record pending_job { id = 201 }
    ∷ record pending_job { id = 202; user_id = 2; available_at = 1500 }
    ∷ []

queue_room : length (fronts [] (candidates MessagePriority.normal 2000 60 queue)) ≤ 2
unfolding candidates sort_by insert_by eligible
queue_room = omega arith

claim_batch-serves_example :
    All
      (λ j.
        false ≡ false
        → elem j.id (ids (claim_batch MessagePriority.normal 4 2 60 5 (λ i. false) 2000 queue).0)
          ≡ true)
      (fronts [] (candidates MessagePriority.normal 2000 60 queue))
claim_batch-serves_example =
    claim_batch-serves MessagePriority.normal 4 2 60 5 2000 (λ i. false) queue (omega arith)
      queue_room

abbrev batch : List ClaimedJob
batch =
    record { id = 200; retry_count = 0 }
    ∷ record { id = 201; retry_count = 2 }
    ∷ record { id = 202; retry_count = 0 }
    ∷ []

abbrev accepts : ℕ → Bool
accepts i = i == 200

abbrev config : PriorityConfig
config = record { priority = MessagePriority.normal; batch_size = 100; per_user_limit = 10 }

-- The job that the broker refuses is the second of the batch, and the relay owns it.
abbrev refused_job : DispatchJob
refused_job = record pending_job {
  id = 201;
  retry_count = 2;
  locked_at = some 1000001;
  locked_by = some 4;
}

abbrev claimed_world : World
claimed_world = record world { db = record (world.db) { jobs = pending_job ∷ refused_job ∷ [] } }
