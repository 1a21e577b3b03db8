-- ===== src/Access/Tests.antt =====
-- The theorems about the guards at concrete users and flags.
use why_not_grace_pos.Prelude.{true, some, List, [], ◌∷◌, ◌≡◌, ◌↔◌}
use why_not_grace_pos.Auth.{AuthStore}
use why_not_grace_pos.Access.{
  owner, manager, hotel_rooms, UserOut, FeatureFlagOut, NavItem, is_feature_enabled, page, role_of,
  item_route,
}
use why_not_grace_pos.Access.Guards.{visible_with, item_route_iff}

abbrev head_manager : AuthStore UserOut
head_manager = record {
  access_token = some "a";
  refresh_token = some "r";
  user = some (record {
    id = "u1";
    business_id = "b1";
    first_name = "Asha";
    last_name = "Rao";
    email = "asha@example.com";
    mobile = "9000000000";
    role = manager;
    is_email_verified = true;
  });
  hydrated = true;
}

abbrev rooms_item : NavItem
rooms_item = record {
  label_key = "nav.rooms";
  path = "/rooms";
  roles = owner ∷ manager ∷ [];
  feature_flag = some hotel_rooms;
}

abbrev rooms_on : List FeatureFlagOut
rooms_on = record { feature = hotel_rooms; enabled = true } ∷ []

item_route_iff_example : (item_route head_manager (some (some rooms_on)) rooms_item ≡ page) ↔ (
    (true ≡ true)
    × (true ≡ true)
    × (visible_with (role_of head_manager) (is_feature_enabled (some rooms_on)) rooms_item ≡ true))
item_route_iff_example = item_route_iff head_manager (some (some rooms_on)) rooms_item
