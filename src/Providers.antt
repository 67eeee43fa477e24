-- ===== src/Providers.antt =====
-- src/infra/providers and `_build_provider` of src/infra/workers/dispatch_tasks.py. `show` is `str` of
-- a UUID; `fails` is whether the random draw of the mock falls below a positive fail rate.
use abrio.Prelude.{
  ℕ, Bool, ◌||◌, none, some, [], ◌∷◌, ◌++◌, Text, codes, if◌then◌else◌, length, ◌≤◌, ◌≡◌, refl, inl,
  inr, Bool-cases, true, false, arith,
}
use abrio.Prelude.Texts.{same, is_prefix}
use abrio.Domain.Enums.{MessageStatus, PaymentStatus, DispatchJobStatus, ProviderOutcome}
use abrio.Database.Rows.{Balance, Message, DispatchJob}
use abrio.Metrics.{World}
use abrio.Ledger.Accounts.{settled, released}
use abrio.Ledger.Consistent.{Inv}
use abrio.Delivery.Process.{IsReadyToSend, Leaves, process-sends, process-refuses}
use abrio.Config.{Settings}
use abrio.Database.Session.{ok}
use abrio.UseCases.Dispatch.{ProviderResult, SmsProvider, DispatchSettings, Clock, process}

-- `marker in body`
abbrev pub contains : Text → Text → Bool
contains marker [] = is_prefix marker []
contains marker (c ∷ cs) = is_prefix marker (c ∷ cs) || contains marker cs

abbrev succeeded : Text → ProviderResult
succeeded id = record {
  outcome = ProviderOutcome.success;
  provider_message_id = some id;
  error = none;
}

abbrev failed : ProviderOutcome → Text → ProviderResult
failed outcome error = record { outcome = outcome; provider_message_id = none; error = some error }

unfoldable pub mock_result : Bool → Text → Text → ProviderResult
mock_result fails id body =
    if contains (codes "[FAIL_PERMANENT]") body
    then failed ProviderOutcome.permanent_failure (codes "mock: forced permanent failure")
    else if contains (codes "[FAIL_TEMP]") body
    then failed ProviderOutcome.temporary_failure (codes "mock: forced temporary failure")
    else if fails
    then failed ProviderOutcome.temporary_failure (codes "mock: random temporary failure")
    else succeeded (codes "mock-" ++ id)

-- `send` of `MockSmsProvider` and of `DummySmsProvider`.
unfoldable pub mock_send : Bool → (ℕ → Text) → SmsProvider
unfolding mock_result
mock_send fails show message_id recipient body = ok (mock_result fails (show message_id) body)

unfoldable pub dummy_send : (ℕ → Text) → SmsProvider
dummy_send show message_id recipient body = ok (succeeded (codes "dummy-" ++ show message_id))

unfoldable pub build_provider : Settings → Bool → (ℕ → Text) → SmsProvider
unfolding mock_send dummy_send
build_provider s fails show =
    if same s.sms_provider (codes "mock") then mock_send fails show else dummy_send show

module _ (st : Settings) (fails : Bool) (show : ℕ → Text) (s : DispatchSettings) (c c' : Clock)
    (jitter job_id worker_id : ℕ) (w : World) (inv : Inv w.db) (j : DispatchJob) (m : Message)
    (b : Balance) (ready : IsReadyToSend s c job_id w.db j m b) where
  -- The mock refuses a marked text, whatever it draws.
  mock_refuses :
      same st.sms_provider (codes "mock") ≡ true
      → contains (codes "[FAIL_PERMANENT]") m.body ≡ true
      → build_provider st fails show m.id m.recipient m.body
        ≡ ok (record {
          outcome = ProviderOutcome.permanent_failure;
          provider_message_id = none;
          error = some (codes "mock: forced permanent failure");
        })
  unfolding build_provider
  mock_refuses mock marked = rw (mock, build_provider) (rw marked refl)

  dummy_sends :
      same st.sms_provider (codes "mock") ≡ false
      → build_provider st fails show m.id m.recipient m.body
        ≡ ok (record {
          outcome = ProviderOutcome.success;
          provider_message_id = some (codes "dummy-" ++ show m.id);
          error = none;
        })
  unfolding build_provider
  dummy_sends dummy = rw (dummy, build_provider) refl

  -- On a consistent database a worker's process of a claimable job, whose text has the marker of a
  -- permanent failure, with the provider that the settings choose: under the mock the job fails
  -- with the mock's error and the message is refunded, and under any other setting, which chooses
  -- the dummy, the job is completed under the dummy's id and the message is sent and paid for, if
  -- the printed id of the message has at most 249 characters.
  pub build_provider-process :
      contains (codes "[FAIL_PERMANENT]") m.body ≡ true
      → length (show m.id) ≤ 249
      → let mock = same st.sms_provider (codes "mock") in
        Leaves job_id m.id m.user_id
          (record j {
            status = if mock then DispatchJobStatus.failed else DispatchJobStatus.completed;
            locked_at = none;
            locked_by = none;
            provider_message_id =
                if mock then j.provider_message_id else some (codes "dummy-" ++ show m.id);
            completed_at = some c'.written_at;
            last_error = if mock then some (codes "mock: forced permanent failure") else none;
          })
          (record m {
            status = if mock then MessageStatus.permanent_failed else MessageStatus.sent;
            payment_status = if mock then PaymentStatus.refunded else PaymentStatus.deducted;
          })
          (if mock then released b m.cost else settled b m.cost)
          (process s (build_provider st fails show) c c' jitter job_id worker_id w)
  build_provider-process marked short = elim (Bool-cases (same st.sms_provider (codes "mock"))) [
    | inl e ↦ rw e (
        process-refuses s c c' jitter job_id worker_id w inv j m b ready
          (build_provider st fails show) none (some (codes "mock: forced permanent failure"))
          (mock_refuses e marked))
    | inr e ↦ rw e (
        process-sends s c c' jitter job_id worker_id w inv j m b ready
          (build_provider st fails show) (codes "dummy-" ++ show m.id) none (dummy_sends e)
          (omega (arith, short)))
  ]
