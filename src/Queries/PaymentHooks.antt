-- ===== src/Queries/PaymentHooks.antt =====
-- The hooks of frontend/src/features/payments/hooks.ts that read or change what the backend keeps.
use why_not_grace_pos.Prelude.{String, Option, List, [], ◌∷◌}
use why_not_grace_pos.Api.Payments
use why_not_grace_pos.Queries.Options.{name, Effect, invalidate, MutationOptions}

abbrev pub invalidate_billing_views : String → List Effect
invalidate_billing_views answer =
    invalidate (name "billing" ∷ name answer ∷ [])
    ∷ invalidate (name "billing" ∷ name "unbilled-orders" ∷ [])
    ∷ invalidate (name "orders" ∷ [])
    ∷ invalidate (name "tables" ∷ [])
    ∷ invalidate (name "dashboard" ∷ [])
    ∷ []

abbrev pub use_record_manual_payment : String → MutationOptions
use_record_manual_payment payload = record {
  mutation_fn = Payments.record_manual payload;
  on_success = λ answer. invalidate_billing_views answer;
}

abbrev pub use_create_razorpay_order : String → Option String → MutationOptions
use_create_razorpay_order payload idempotency_key = record {
  mutation_fn = Payments.create_razorpay_order payload idempotency_key;
  on_success = λ answer. [];
}

abbrev pub use_verify_razorpay_payment : String → MutationOptions
use_verify_razorpay_payment payload = record {
  mutation_fn = Payments.verify_razorpay payload;
  on_success = λ answer. invalidate_billing_views answer;
}
