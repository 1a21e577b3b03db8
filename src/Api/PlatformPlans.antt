-- ===== src/Api/PlatformPlans.antt =====
-- Calls of frontend/src/api/platform.ts: the subscriptions of businesses.
use why_not_grace_pos.Prelude.{Option, String, [], ◌∷◌}
use why_not_grace_pos.Api.Calls.{Call, call, word, slot, platform, get, post, json, fields}

abbrev pub fetch : Option String → Call
fetch business_id =
    call platform get
      (word "platform" ∷ word "businesses" ∷ slot business_id ∷ word "subscription" ∷ [])

abbrev pub provision : Option String → String → Call
provision business_id payload =
    record (call platform post (
      word "platform"
      ∷ word "businesses"
      ∷ slot business_id
      ∷ word "subscription"
      ∷ word "provision"
      ∷ [])) { body = json payload }

abbrev pub renew : Option String → String → Call
renew business_id payload =
    record (call platform post (
      word "platform"
      ∷ word "businesses"
      ∷ slot business_id
      ∷ word "subscription"
      ∷ word "renew"
      ∷ [])) { body = json payload }

abbrev pub suspend : Option String → Call
suspend business_id =
    record (call platform post (
      word "platform"
      ∷ word "businesses"
      ∷ slot business_id
      ∷ word "subscription"
      ∷ word "suspend"
      ∷ [])) { body = fields [] }

abbrev pub cancel : Option String → Call
cancel business_id =
    record (call platform post (
      word "platform"
      ∷ word "businesses"
      ∷ slot business_id
      ∷ word "subscription"
      ∷ word "cancel"
      ∷ [])) { body = fields [] }
