-- ===== src/MenuEditor/Tests.antt =====
-- The theorems about the dialog at a concrete dish.
use why_not_grace_pos.Prelude.{
  ℕ, Bool, true, false, Option, none, some, List, [], ◌∷◌, ◌≡◌, refl, trim, whole_Number,
}
use why_not_grace_pos.Prelude.Tallies.{
  tally_text, tally_of, tally_of-tally_text, tally_text-is_truthy,
}
use why_not_grace_pos.Menu.{MenuItemOut}
use why_not_grace_pos.MenuEditor.{
  EditorProps, ItemForm, NewParts, ItemEditor, updates, mount, render, handle_submit,
}
use why_not_grace_pos.MenuEditor.Naming.{
  EditorEvent, types, adds_variant, adds_group, adds_option, saves, editor_run, IsNamedRequest,
  handle_submit-IsNamedRequest,
}
use why_not_grace_pos.MenuEditor.Saving.{values_of, render-handle_submit}

abbrev thali : MenuItemOut ℕ
thali = record {
  id = "i1";
  category_id = "c1";
  kitchen_station = none;
  name = "Thali";
  description = some "With rice";
  base_price = 220;
  is_veg = true;
  is_active = true;
  is_sold_out = false;
  is_todays_special = true;
  is_specialty = false;
  image_url = none;
  display_order = 0;
  stock_quantity = some 12;
  variants = [];
  option_groups = [];
}

abbrev props_of : Option (MenuItemOut ℕ) → Bool → EditorProps ℕ
props_of item is_open = record {
  is_open = is_open;
  item = item;
  categories = record { id = "c1"; name = "Mains" } ∷ [];
  default_category_id = none;
}

abbrev editor : ItemEditor ℕ
editor = mount tally_text (props_of none false)

-- Opening on the thali and saving.
render-handle_submit_example :
    (handle_submit tally_of "menuAdmin.itemFieldsRequired"
      (props_of (some thali) true)
      (render tally_text (props_of (some thali) true) editor)).1
    ≡ some (updates "i1" (values_of thali))
unfolding trim mount
render-handle_submit_example =
    render-handle_submit tally_of tally_text tally_of-tally_text tally_text-is_truthy
      "menuAdmin.itemFieldsRequired" (props_of (some thali) true) editor thali refl refl refl refl
      refl refl (refl, refl, refl)

abbrev sizes : NewParts
sizes = record {
  variant_name = " Half ";
  variant_delta = "||";
  group_name = "Extras";
  group_required = false;
  group_multiple = true;
  option_name_by_group = λ k. some "Curd";
  option_delta_by_group = λ k. none;
}

abbrev dal : ItemForm
dal = record {
  name = "Dal";
  description = "";
  base_price = "|||";
  category_id = "c1";
  is_veg = true;
  image_url = "";
  is_active = true;
  is_sold_out = false;
  is_todays_special = false;
  is_specialty = false;
  stock_quantity = "";
  kitchen_station = "";
}

abbrev work : List EditorEvent
work = types dal sizes ∷ adds_variant "k1" ∷ adds_group "k2" ∷ adds_option "k2" "k3" ∷ saves ∷ []

handle_submit-IsNamedRequest_example :
    IsNamedRequest
      (handle_submit tally_of "menuAdmin.itemFieldsRequired" (props_of none true) (
        editor_run tally_of "menuAdmin.itemFieldsRequired"
          (props_of none true)
          (render tally_text (props_of none true) editor)
          work)).1
unfolding mount
handle_submit-IsNamedRequest_example =
    handle_submit-IsNamedRequest tally_of "menuAdmin.itemFieldsRequired" tally_text
      (props_of none true) editor work refl
