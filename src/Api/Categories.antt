-- ===== src/Api/Categories.antt =====
-- Calls of frontend/src/api/menu.ts: the categories.
use why_not_grace_pos.Prelude.{Option, String, [], ◌∷◌}
use why_not_grace_pos.Api.Calls.{Call, call, word, slot, staff, get, post, put, delete, json}

abbrev pub list : Call
list = call staff get (word "categories" ∷ [])

abbrev pub create : String → Call
create payload = record (call staff post (word "categories" ∷ [])) { body = json payload }

abbrev pub update : Option String → String → Call
update category_id payload = record (call staff put (word "categories" ∷ slot category_id ∷ [])) {
  body = json payload;
}

abbrev pub remove : Option String → Call
remove category_id = call staff delete (word "categories" ∷ slot category_id ∷ [])

abbrev pub list_translations : Option String → Call
list_translations category_id =
    call staff get (word "categories" ∷ slot category_id ∷ word "translations" ∷ [])

abbrev pub set_translation : Option String → Option String → String → Call
set_translation category_id language payload =
    record (call staff put
      (word "categories" ∷ slot category_id ∷ word "translations" ∷ slot language ∷ [])) {
        body = json payload;
      }
