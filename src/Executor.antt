-- ===== src/Executor.antt =====
-- app/executor.py: the interface of an executor of payment links, and the mock executor.
use Prim.Native.String.{◌++◌}
use payment_recovery_opportu.Base.{ℕ, String, Option}
use payment_recovery_opportu.Models.{RecoveryDecision, PaymentRecord}
use payment_recovery_opportu.Session.{Result, ok}

-- The calls are numbered: a service may answer the same question in another way later. A call is
-- given the decision with its `payment_record` and the reference, and takes some microseconds.
pub record PaymentLinkProvider : Type 0 where
  pub create_payment_link : ℕ → RecoveryDecision → Option PaymentRecord → String → Result String
  pub reconcile_duplicate_reference :
      ℕ → RecoveryDecision → Option PaymentRecord → String → Result String
  pub elapsed : ℕ → ℕ

-- `sha1_prefix` is the first eight hexadecimal digits of the SHA-1 digest.
unfoldable pub mock_payment_link_provider : (String → String) → PaymentLinkProvider
mock_payment_link_provider sha1_prefix = record {
  create_payment_link = λ _ _ _ ref. ok ("plink_mock_" ++ sha1_prefix ref);
  reconcile_duplicate_reference = λ _ _ _ ref. ok ("plink_mock_" ++ sha1_prefix ref);
  elapsed = λ _. 0;
}
