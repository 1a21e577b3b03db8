-- ===== src/Api/Locations.antt =====
-- The calls of frontend/src/api/locations.ts.
use why_not_grace_pos.Prelude.{Option, String, [], ◌∷◌}
use why_not_grace_pos.Api.Calls.{Call, call, word, slot, staff, delete}

abbrev pub remove : Option String → Call
remove location_id = call staff delete (word "locations" ∷ slot location_id ∷ [])
