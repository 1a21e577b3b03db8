-- ===== src/Api/Bills.antt =====
-- The calls of frontend/src/api/billing.ts.
use why_not_grace_pos.Prelude.{Option, String, [], ◌∷◌}
use why_not_grace_pos.Api.Calls.{
  Call, call, text_or_absent, word, slot, staff, get, post, json, fields,
}

abbrev pub generate : String → Call
generate payload = record (call staff post (word "billing" ∷ word "generate" ∷ [])) {
  body = json payload;
}

abbrev pub unbilled_orders : Call
unbilled_orders = call staff get (word "billing" ∷ word "unbilled-orders" ∷ [])

abbrev pub fetch : Option String → Call
fetch bill_id = call staff get (word "billing" ∷ slot bill_id ∷ [])

abbrev pub apply_discount : Option String → String → Call
apply_discount bill_id payload =
    record (call staff post (word "billing" ∷ slot bill_id ∷ word "discount" ∷ [])) {
      body = json payload;
    }

abbrev pub void_item : Option String → Option String → Option String → Call
void_item bill_id item_id reason =
    record (call staff post
      (word "billing" ∷ slot bill_id ∷ word "items" ∷ slot item_id ∷ word "void" ∷ [])) {
        body = fields (("reason", text_or_absent reason) ∷ []);
      }

abbrev pub comp_item : Option String → Option String → Option String → Call
comp_item bill_id item_id reason =
    record (call staff post
      (word "billing" ∷ slot bill_id ∷ word "items" ∷ slot item_id ∷ word "comp" ∷ [])) {
        body = fields (("reason", text_or_absent reason) ∷ []);
      }

abbrev pub uncomp_item : Option String → Option String → Call
uncomp_item bill_id item_id =
    record (call staff post
      (word "billing" ∷ slot bill_id ∷ word "items" ∷ slot item_id ∷ word "uncomp" ∷ [])) {
        body = fields [];
      }

abbrev pub mark_no_charge : Option String → Option String → Call
mark_no_charge bill_id reason =
    record (call staff post (word "billing" ∷ slot bill_id ∷ word "no-charge" ∷ [])) {
      body = fields (("reason", text_or_absent reason) ∷ []);
    }

abbrev pub void_bill : Option String → Option String → Call
void_bill bill_id reason =
    record (call staff post (word "billing" ∷ slot bill_id ∷ word "void" ∷ [])) {
      body = fields (("reason", text_or_absent reason) ∷ []);
    }
