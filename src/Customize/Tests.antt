-- ===== src/Customize/Tests.antt =====
-- The theorems about the customisation dialog at a concrete dish, in whole rupees.
use why_not_grace_pos.Prelude.{ℕ, ◌+◌, true, false, none, some, [], ◌∷◌, ◌≡◌, refl, whole_Number}
use mathlib.Core.List.{flat_map}
use why_not_grace_pos.Menu.{MenuVariantOut, MenuOptionOut, MenuOptionGroupOut, MenuItemOut}
use why_not_grace_pos.Cart.{cart_estimated_subtotal}
use why_not_grace_pos.Customize.{
  Chosen, toggle_option, Dialog, can_add, all_selected_options, shown_estimate, press_add,
}
use why_not_grace_pos.Customize.Estimate.{subtotal-press_add}

abbrev half_plate : MenuVariantOut ℕ
half_plate = record {
  id = "v1";
  name = "half";
  price_delta = 0;
  is_default = true;
  is_active = false;
}

abbrev full_plate : MenuVariantOut ℕ
full_plate = record {
  id = "v2";
  name = "full";
  price_delta = 90;
  is_default = false;
  is_active = true;
}

abbrev raita : MenuOptionOut ℕ
raita = record { id = "o1"; name = "raita"; price_delta = 30; is_active = true; display_order = 0 }

abbrev sides : MenuOptionGroupOut ℕ
sides = record {
  id = "g1";
  name = "side";
  is_required = true;
  allow_multiple = false;
  display_order = 0;
  is_active = true;
  options = raita ∷ [];
}

abbrev biryani : MenuItemOut ℕ
biryani = record {
  id = "m1";
  category_id = "c1";
  kitchen_station = none;
  name = "biryani";
  description = none;
  base_price = 180;
  is_veg = false;
  is_active = true;
  is_sold_out = false;
  is_todays_special = false;
  is_specialty = true;
  image_url = none;
  display_order = 0;
  stock_quantity = none;
  variants = half_plate ∷ full_plate ∷ [];
  option_groups = sides ∷ [];
}

abbrev with_raita : Chosen
with_raita = toggle_option "g1" "o1" false (λ _. [])

abbrev chosen_biryani : Dialog ℕ
chosen_biryani = record {
  item = biryani;
  variant_id = some "v2";
  chosen = with_raita;
  quantity = 2;
  notes = " less oil ";
}

biryani_total : shown_estimate chosen_biryani ≡ 600
unfolding shown_estimate all_selected_options toggle_option flat_map
biryani_total = refl

biryani_ok : can_add chosen_biryani ≡ true
unfolding can_add toggle_option
biryani_ok = refl

subtotal-press_add_example :
    cart_estimated_subtotal (press_add "l1" chosen_biryani [])
    ≡ cart_estimated_subtotal {N = ℕ} [] + shown_estimate chosen_biryani
subtotal-press_add_example = subtotal-press_add "l1" chosen_biryani [] biryani_ok
