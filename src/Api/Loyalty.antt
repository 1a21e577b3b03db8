-- ===== src/Api/Loyalty.antt =====
-- The calls of frontend/src/api/loyalty.ts.
use why_not_grace_pos.Prelude.{Option, String, [], ◌∷◌}
use why_not_grace_pos.Api.Calls.{Call, call, word, slot, staff, get, post, put, json}

abbrev pub fetch_account : Option String → Call
fetch_account customer_id =
    call staff get (word "loyalty" ∷ word "accounts" ∷ slot customer_id ∷ [])

abbrev pub list_rewards : Option String → Call
list_rewards customer_id =
    call staff get (word "loyalty" ∷ word "accounts" ∷ slot customer_id ∷ word "rewards" ∷ [])

abbrev pub list_rules : Call
list_rules = call staff get (word "loyalty" ∷ word "rules" ∷ [])

abbrev pub create_rule : String → Call
create_rule payload = record (call staff post (word "loyalty" ∷ word "rules" ∷ [])) {
  body = json payload;
}

abbrev pub update_rule : Option String → String → Call
update_rule rule_id payload =
    record (call staff put (word "loyalty" ∷ word "rules" ∷ slot rule_id ∷ [])) {
      body = json payload;
    }

abbrev pub redeem_reward : Option String → String → Call
redeem_reward reward_id payload =
    record (call staff post
      (word "loyalty" ∷ word "rewards" ∷ slot reward_id ∷ word "redeem" ∷ [])) {
        body = json payload;
      }
