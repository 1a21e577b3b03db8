-- ===== src/Api/Integrations.antt =====
-- The calls of frontend/src/api/integrations.ts.
use why_not_grace_pos.Prelude.{Option, String, [], ◌∷◌}
use why_not_grace_pos.Api.Calls.{Call, call, word, slot, staff, get, post, put, delete, json}

abbrev pub list : Call
list = call staff get (word "integrations" ∷ [])

abbrev pub connect : Option String → String → Call
connect provider payload =
    record (call staff put (word "integrations" ∷ slot provider ∷ word "credentials" ∷ [])) {
      body = json payload;
    }

abbrev pub disconnect : Option String → Call
disconnect provider =
    call staff delete (word "integrations" ∷ slot provider ∷ word "credentials" ∷ [])

abbrev pub sync_menu : Option String → Call
sync_menu provider = call staff post (word "integrations" ∷ slot provider ∷ word "menu-sync" ∷ [])
