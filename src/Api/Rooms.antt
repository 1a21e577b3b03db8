-- ===== src/Api/Rooms.antt =====
-- The calls of frontend/src/api/rooms.ts.
use why_not_grace_pos.Prelude.{Option, String, [], ◌∷◌}
use why_not_grace_pos.Api.Calls.{Call, call, word, slot, staff, get, post, put, json}

abbrev pub list : Call
list = call staff get (word "rooms" ∷ [])

abbrev pub create : String → Call
create payload = record (call staff post (word "rooms" ∷ [])) { body = json payload }

abbrev pub update : Option String → String → Call
update room_id payload = record (call staff put (word "rooms" ∷ slot room_id ∷ [])) {
  body = json payload;
}
