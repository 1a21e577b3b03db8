-- ===== src/Api/Pricing.antt =====
-- The calls of frontend/src/api/pricing.ts.
use why_not_grace_pos.Prelude.{Option, String, [], ◌∷◌}
use why_not_grace_pos.Api.Calls.{
  Call, call, Params, word, slot, staff, get, post, put, delete, json,
}

abbrev pub list_rules : Params → Call
list_rules params = record (call staff get (word "pricing" ∷ word "rules" ∷ [])) { params = params }

abbrev pub create_rule : String → Call
create_rule payload = record (call staff post (word "pricing" ∷ word "rules" ∷ [])) {
  body = json payload;
}

abbrev pub update_rule : Option String → String → Call
update_rule rule_id payload =
    record (call staff put (word "pricing" ∷ word "rules" ∷ slot rule_id ∷ [])) {
      body = json payload;
    }

abbrev pub delete_rule : Option String → Call
delete_rule rule_id = call staff delete (word "pricing" ∷ word "rules" ∷ slot rule_id ∷ [])
