-- ===== src/Api/Orders.antt =====
-- The calls of frontend/src/api/orders.ts.
use why_not_grace_pos.Prelude.{Option, String, [], ◌∷◌}
use why_not_grace_pos.Api.Calls.{
  Call, call, Params, text_or_absent, word, slot, staff, get, post, json, fields,
}

abbrev pub list : Params → Call
list filters = record (call staff get (word "orders" ∷ [])) { params = filters }

abbrev pub fetch : Option String → Call
fetch id = call staff get (word "orders" ∷ slot id ∷ [])

abbrev pub create : String → Call
create payload = record (call staff post (word "orders" ∷ [])) { body = json payload }

abbrev pub cancel : Option String → Call
cancel id = call staff post (word "orders" ∷ slot id ∷ word "cancel" ∷ [])

abbrev pub transfer_session : Option String → Option String → Call
transfer_session session_id location_id =
    record (call staff post
      (word "orders" ∷ word "sessions" ∷ slot session_id ∷ word "transfer" ∷ [])) {
        body = fields (("location_id", text_or_absent location_id) ∷ []);
      }

abbrev pub merge_sessions : Option String → Option String → Call
merge_sessions session_id into_session_id =
    record (call staff post
      (word "orders" ∷ word "sessions" ∷ slot session_id ∷ word "merge" ∷ [])) {
        body = fields (("into_session_id", text_or_absent into_session_id) ∷ []);
      }
