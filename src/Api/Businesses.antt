-- ===== src/Api/Businesses.antt =====
-- The calls of frontend/src/api/business.ts.
use why_not_grace_pos.Prelude.{String, [], ◌∷◌}
use why_not_grace_pos.Api.Calls.{Call, call, word, staff, get, put, json}

abbrev pub fetch_mine : Call
fetch_mine = call staff get (word "businesses" ∷ word "me" ∷ [])

abbrev pub update_mine : String → Call
update_mine payload = record (call staff put (word "businesses" ∷ word "me" ∷ [])) {
  body = json payload;
}
