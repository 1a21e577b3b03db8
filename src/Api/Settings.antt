-- ===== src/Api/Settings.antt =====
-- The calls of frontend/src/api/settings.ts.
use why_not_grace_pos.Prelude.{String, [], ◌∷◌}
use why_not_grace_pos.Api.Calls.{Call, call, word, staff, get, put, json}

abbrev pub fetch : Call
fetch = call staff get (word "settings" ∷ [])

abbrev pub update : String → Call
update payload = record (call staff put (word "settings" ∷ [])) { body = json payload }
