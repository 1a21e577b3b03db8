-- ===== src/Api/Staff.antt =====
-- The calls of frontend/src/api/staff.ts.
use why_not_grace_pos.Prelude.{Option, String, [], ◌∷◌}
use why_not_grace_pos.Api.Calls.{Call, call, word, slot, staff, get, post, put, json}

abbrev pub list : Call
list = call staff get (word "staff" ∷ [])

abbrev pub create : String → Call
create payload = record (call staff post (word "staff" ∷ [])) { body = json payload }

abbrev pub update : Option String → String → Call
update staff_id payload = record (call staff put (word "staff" ∷ slot staff_id ∷ [])) {
  body = json payload;
}

abbrev pub reset_access : Option String → Call
reset_access staff_id = call staff post (word "staff" ∷ slot staff_id ∷ word "reset-access" ∷ [])
