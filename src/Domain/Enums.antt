-- ===== src/Domain/Enums.antt =====
-- src/domain/enums.py and `ProviderOutcome` of src/infra/providers/types.py.
use abrio.Prelude.{Bool, true, false, ◌≡◌, arith}

pub data MessagePriority : Type 0 where
  normal express : MessagePriority

pub data MessageStatus : Type 0 where
  queued dispatching failed sent permanent_failed : MessageStatus

pub data PaymentStatus : Type 0 where
  reserved deducted refunded : PaymentStatus

pub data DispatchJobStatus : Type 0 where
  pending published dispatching retry completed failed : DispatchJobStatus

pub data ProviderOutcome : Type 0 where
  success temporary_failure permanent_failure : ProviderOutcome

-- `==` on the members of each enumeration.
abbrev pub priority_eq : MessagePriority → MessagePriority → Bool
priority_eq MessagePriority.normal MessagePriority.normal = true
priority_eq MessagePriority.express MessagePriority.express = true
priority_eq _ _ = false

abbrev pub payment_eq : PaymentStatus → PaymentStatus → Bool
payment_eq PaymentStatus.reserved PaymentStatus.reserved = true
payment_eq PaymentStatus.deducted PaymentStatus.deducted = true
payment_eq PaymentStatus.refunded PaymentStatus.refunded = true
payment_eq _ _ = false

abbrev pub message_status_eq : MessageStatus → MessageStatus → Bool
message_status_eq MessageStatus.queued MessageStatus.queued = true
message_status_eq MessageStatus.dispatching MessageStatus.dispatching = true
message_status_eq MessageStatus.failed MessageStatus.failed = true
message_status_eq MessageStatus.sent MessageStatus.sent = true
message_status_eq MessageStatus.permanent_failed MessageStatus.permanent_failed = true
message_status_eq _ _ = false

abbrev pub job_status_eq : DispatchJobStatus → DispatchJobStatus → Bool
job_status_eq DispatchJobStatus.pending DispatchJobStatus.pending = true
job_status_eq DispatchJobStatus.published DispatchJobStatus.published = true
job_status_eq DispatchJobStatus.dispatching DispatchJobStatus.dispatching = true
job_status_eq DispatchJobStatus.retry DispatchJobStatus.retry = true
job_status_eq DispatchJobStatus.completed DispatchJobStatus.completed = true
job_status_eq DispatchJobStatus.failed DispatchJobStatus.failed = true
job_status_eq _ _ = false

pub payment_eq_refl : (p : PaymentStatus) → payment_eq p p ≡ true
payment_eq_refl p = ground arith

pub payment_eq→eq : (p q : PaymentStatus) → payment_eq p q ≡ true → p ≡ q
payment_eq→eq p q h = ground arith
