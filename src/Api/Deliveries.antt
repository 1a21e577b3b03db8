-- ===== src/Api/Deliveries.antt =====
-- The calls of frontend/src/api/delivery.ts.
use why_not_grace_pos.Prelude.{Option, String, [], ◌∷◌}
use why_not_grace_pos.Api.Calls.{Call, call, word, slot, staff, get, put, json}

abbrev pub list_orders : Call
list_orders = call staff get (word "delivery" ∷ word "orders" ∷ [])

abbrev pub update_status : Option String → String → Call
update_status order_id payload =
    record (call staff put (word "delivery" ∷ word "orders" ∷ slot order_id ∷ word "status" ∷ [])) {
      body = json payload;
    }
