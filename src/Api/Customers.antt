-- ===== src/Api/Customers.antt =====
-- The calls of frontend/src/api/customers.ts.
use why_not_grace_pos.Prelude.{Option, String, [], ◌∷◌}
use why_not_grace_pos.Api.Calls.{Call, call, word, slot, staff, get, post, put, json}

abbrev pub list : Call
list = call staff get (word "customers" ∷ [])

abbrev pub create : String → Call
create payload = record (call staff post (word "customers" ∷ [])) { body = json payload }

abbrev pub update : Option String → String → Call
update id payload = record (call staff put (word "customers" ∷ slot id ∷ [])) {
  body = json payload;
}
