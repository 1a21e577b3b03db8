-- ===== src/Api/Kots.antt =====
-- The calls of frontend/src/api/kot.ts.
use why_not_grace_pos.Prelude.{Option, String, [], ◌∷◌}
use why_not_grace_pos.Api.Calls.{Call, call, Params, word, slot, staff, get, put, json}

abbrev pub list : Params → Call
list filters = record (call staff get (word "kot" ∷ [])) { params = filters }

abbrev pub update_status : Option String → String → Call
update_status id payload = record (call staff put (word "kot" ∷ slot id ∷ word "status" ∷ [])) {
  body = json payload;
}
