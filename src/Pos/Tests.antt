-- ===== src/Pos/Tests.antt =====
-- The theorems about placing orders at a concrete delivery.
use why_not_grace_pos.Prelude.{ℕ, true, none, [], ◌∷◌, ◌≡◌, refl, map, text_length, trim}
use why_not_grace_pos.Cart.{LineBody}
use why_not_grace_pos.Pos.{
  CartState, Panel, delivery, can_place_order, order_item, order_request, place_order,
}
use why_not_grace_pos.Pos.Placing.{Carries, place_order_posts}

abbrev thali : LineBody ℕ
thali = record {
  menu_item_id = "m1";
  item_name = "thali";
  is_veg = true;
  unit_estimate = 250;
  variant_id = none;
  variant_name = none;
  options = [];
  quantity = 1;
  special_instructions = none;
}

abbrev to_deliver : CartState ℕ
to_deliver = record {
  order_context = delivery;
  table_id = none;
  table_name = none;
  delivery_address = " 4 MG Road ";
  customer_id = none;
  customer_label = none;
  lines = record { id = "l1"; body = thali } ∷ [];
}

abbrev counter : Panel ℕ
counter = record { cart = to_deliver; notes = ""; error = none; posted = [] }

may_deliver : can_place_order to_deliver ≡ true
unfolding can_place_order text_length trim
may_deliver = refl

place_order_posts_example :
    let r = order_request to_deliver "" in
    (place_order counter ≡ record counter { error = none; posted = r ∷ [] })
    × (r.source ≡ delivery)
    × Carries delivery r
    × (r.items ≡ map order_item to_deliver.lines)
place_order_posts_example = place_order_posts counter may_deliver
