-- ===== src/Api/Tables.antt =====
-- The calls of frontend/src/api/tables.ts.
use why_not_grace_pos.Prelude.{Option, String, [], ◌∷◌}
use why_not_grace_pos.Api.Calls.{Call, call, word, slot, staff, get, post, put, json}

abbrev pub list : Call
list = call staff get (word "tables" ∷ [])

abbrev pub create : String → Call
create payload = record (call staff post (word "tables" ∷ [])) { body = json payload }

abbrev pub update : Option String → String → Call
update table_id payload = record (call staff put (word "tables" ∷ slot table_id ∷ [])) {
  body = json payload;
}
