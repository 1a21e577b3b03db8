-- ===== src/Api/Payments.antt =====
-- The calls of frontend/src/api/payments.ts.
use why_not_grace_pos.Prelude.{Option, String, [], ◌∷◌}
use why_not_grace_pos.Api.Calls.{Call, call, word, staff, post, json, idempotency}

abbrev pub record_manual : String → Call
record_manual payload = record (call staff post (word "payments" ∷ word "cash" ∷ [])) {
  body = json payload;
}

abbrev pub create_razorpay_order : String → Option String → Call
create_razorpay_order payload key =
    record (call staff post (word "payments" ∷ word "razorpay" ∷ word "order" ∷ [])) {
      body = json payload;
      headers = idempotency key;
    }

abbrev pub verify_razorpay : String → Call
verify_razorpay payload =
    record (call staff post (word "payments" ∷ word "razorpay" ∷ word "verify" ∷ [])) {
      body = json payload;
    }
