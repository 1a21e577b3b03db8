-- ===== src/Api/Items.antt =====
-- Calls of frontend/src/api/menu.ts: the items.
use why_not_grace_pos.Prelude.{Option, String, [], ◌∷◌}
use why_not_grace_pos.Api.Calls.{
  Call, call, Params, word, slot, staff, get, post, put, delete, json,
}

abbrev pub list : Params → Call
list params = record (call staff get (word "menu" ∷ word "items" ∷ [])) { params = params }

abbrev pub create : String → Call
create payload = record (call staff post (word "menu" ∷ word "items" ∷ [])) { body = json payload }

abbrev pub update : Option String → String → Call
update item_id payload = record (call staff put (word "menu" ∷ word "items" ∷ slot item_id ∷ [])) {
  body = json payload;
}

abbrev pub remove : Option String → Call
remove item_id = call staff delete (word "menu" ∷ word "items" ∷ slot item_id ∷ [])

abbrev pub add_variant : Option String → String → Call
add_variant item_id payload =
    record (call staff post (word "menu" ∷ word "items" ∷ slot item_id ∷ word "variants" ∷ [])) {
      body = json payload;
    }

abbrev pub add_option_group : Option String → String → Call
add_option_group item_id payload =
    record (call staff post
      (word "menu" ∷ word "items" ∷ slot item_id ∷ word "option-groups" ∷ [])) {
        body = json payload;
      }

abbrev pub add_option : Option String → String → Call
add_option group_id payload =
    record (call staff post
      (word "menu" ∷ word "option-groups" ∷ slot group_id ∷ word "options" ∷ [])) {
        body = json payload;
      }

abbrev pub update_variant : Option String → String → Call
update_variant variant_id payload =
    record (call staff put (word "menu" ∷ word "variants" ∷ slot variant_id ∷ [])) {
      body = json payload;
    }

abbrev pub delete_variant : Option String → Call
delete_variant variant_id = call staff delete (word "menu" ∷ word "variants" ∷ slot variant_id ∷ [])

abbrev pub update_option_group : Option String → String → Call
update_option_group group_id payload =
    record (call staff put (word "menu" ∷ word "option-groups" ∷ slot group_id ∷ [])) {
      body = json payload;
    }

abbrev pub delete_option_group : Option String → Call
delete_option_group group_id =
    call staff delete (word "menu" ∷ word "option-groups" ∷ slot group_id ∷ [])

abbrev pub update_option : Option String → String → Call
update_option option_id payload =
    record (call staff put (word "menu" ∷ word "options" ∷ slot option_id ∷ [])) {
      body = json payload;
    }

abbrev pub delete_option : Option String → Call
delete_option option_id = call staff delete (word "menu" ∷ word "options" ∷ slot option_id ∷ [])

abbrev pub list_translations : Option String → Call
list_translations item_id =
    call staff get (word "menu" ∷ word "items" ∷ slot item_id ∷ word "translations" ∷ [])

abbrev pub set_translation : Option String → Option String → String → Call
set_translation item_id language payload =
    record (call staff put
      (word "menu" ∷ word "items" ∷ slot item_id ∷ word "translations" ∷ slot language ∷ [])) {
        body = json payload;
      }
