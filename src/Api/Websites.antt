-- ===== src/Api/Websites.antt =====
-- The calls of frontend/src/api/website.ts.
use why_not_grace_pos.Prelude.{Option, String, [], ◌∷◌}
use why_not_grace_pos.Api.Calls.{Call, call, text, word, slot, guest, get}

abbrev pub fetch_site : Option String → Call
fetch_site slug = call guest get (word "website" ∷ word "public" ∷ slot slug ∷ [])

abbrev pub fetch_menu : Option String → String → Call
fetch_menu slug lang =
    record (call guest get (word "website" ∷ word "public" ∷ slot slug ∷ word "menu" ∷ [])) {
      params = ("language", text lang) ∷ [];
    }
