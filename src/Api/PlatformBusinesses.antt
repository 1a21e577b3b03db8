-- ===== src/Api/PlatformBusinesses.antt =====
-- Calls of frontend/src/api/platform.ts: businesses, their features and toggles, website and menu.
use why_not_grace_pos.Prelude.{Option, String, [], ◌∷◌}
use why_not_grace_pos.Api.Calls.{Call, call, word, slot, platform, get, post, put, json}

abbrev pub list : Call
list = call platform get (word "platform" ∷ word "businesses" ∷ [])

abbrev pub fetch : Option String → Call
fetch business_id = call platform get (word "platform" ∷ word "businesses" ∷ slot business_id ∷ [])

abbrev pub provision : String → Call
provision payload = record (call platform post (word "platform" ∷ word "businesses" ∷ [])) {
  body = json payload;
}

abbrev pub set_active : Option String → String → Call
set_active business_id payload =
    record (call platform put
      (word "platform" ∷ word "businesses" ∷ slot business_id ∷ word "active" ∷ [])) {
        body = json payload;
      }

abbrev pub list_features : Option String → Call
list_features business_id =
    call platform get
      (word "platform" ∷ word "businesses" ∷ slot business_id ∷ word "features" ∷ [])

abbrev pub set_feature : Option String → Option String → String → Call
set_feature business_id feature payload =
    record (call platform put (
      word "platform"
      ∷ word "businesses"
      ∷ slot business_id
      ∷ word "features"
      ∷ slot feature
      ∷ [])) { body = json payload }

abbrev pub list_toggles : Option String → Call
list_toggles business_id =
    call platform get (word "platform" ∷ word "businesses" ∷ slot business_id ∷ word "toggles" ∷ [])

abbrev pub set_toggle : Option String → Option String → String → Call
set_toggle business_id key payload =
    record (call platform put
      (word "platform" ∷ word "businesses" ∷ slot business_id ∷ word "toggles" ∷ slot key ∷ [])) {
        body = json payload;
      }

abbrev pub fetch_website : Option String → Call
fetch_website business_id =
    call platform get (word "platform" ∷ word "businesses" ∷ slot business_id ∷ word "website" ∷ [])

abbrev pub set_website : Option String → String → Call
set_website business_id payload =
    record (call platform put
      (word "platform" ∷ word "businesses" ∷ slot business_id ∷ word "website" ∷ [])) {
        body = json payload;
      }

abbrev pub extract_menu : Option String → String → Call
extract_menu business_id form =
    record (call platform post (
      word "platform"
      ∷ word "businesses"
      ∷ slot business_id
      ∷ word "menu-import"
      ∷ word "extract"
      ∷ [])) { body = json form; headers = ("Content-Type", "multipart/form-data") ∷ [] }

abbrev pub publish_menu : Option String → String → Call
publish_menu business_id payload =
    record (call platform post (
      word "platform"
      ∷ word "businesses"
      ∷ slot business_id
      ∷ word "menu-import"
      ∷ word "publish"
      ∷ [])) { body = json payload }
