-- ===== src/Qr/Tests.antt =====
-- The theorems about guests' orders at concrete codes and carts, with times as whole numbers.
use why_not_grace_pos.Prelude.{
  ℕ, String, ◌≡◌, refl, true, false, some, none, Option, List, [], ◌∷◌, whole_Number, arith,
}
use why_not_grace_pos.Cart.{CartLine}
use why_not_grace_pos.Qr.{
  qr_step, QrRoute, QrScanResponse, QrEvent, shows, gives, fails, no_session, opened, scan_effect,
  qr_run, ready,
}
use why_not_grace_pos.Qr.Session.{qr_run-ready}
use why_not_grace_pos.Qr.Item.{QrMenuItemOut, QrMenuVariantOut}

abbrev time_of : String → Option ℕ
time_of text = some 100

abbrev cafe : QrRoute
cafe = record { business_slug = "cafe"; location_id = "t1"; code = some "c1" }

abbrev bistro : QrRoute
bistro = record { business_slug = "bistro"; location_id = "t9"; code = some "c9" }

abbrev answered : QrScanResponse
answered = record {
  session_token = "tok";
  business_id = "b1";
  business_name = "Cafe";
  location_id = "t1";
  location_name = "Table 1";
  location_type = "TABLE";
  expires_at = "later";
}

abbrev visit : List (QrEvent ℕ)
visit = fails "no network" ∷ shows 7 cafe ∷ gives answered ∷ []

bistro_answers :
    (qr_run time_of (scan_effect time_of 5 bistro (opened no_session)) visit).status ≡ ready
unfolding qr_run qr_step
bistro_answers = refl

qr_run-ready_example :
    (qr_run time_of (scan_effect time_of 5 bistro (opened no_session)) visit).store.business_slug
    ≡ some "cafe"
qr_run-ready_example = qr_run-ready time_of 5 bistro (opened no_session) visit bistro_answers

abbrev lassi : CartLine ℕ
lassi = record {
  id = "l1";
  body = record {
    menu_item_id = "lassi";
    item_name = "Lassi";
    is_veg = true;
    unit_estimate = 80;
    variant_id = none;
    variant_name = none;
    options = [];
    quantity = 2;
    special_instructions = none;
  };
}

some_lines : ¬ ((lassi ∷ []) ≡ [])
some_lines = ground arith

abbrev small : QrMenuVariantOut ℕ
small = record { id = "v1"; name = "Small"; price_delta = 0; is_default = false }

abbrev tea : QrMenuItemOut ℕ
tea = record {
  id = "tea";
  name = "Tea";
  description = none;
  price = 20;
  is_veg = true;
  is_sold_out = false;
  is_todays_special = false;
  is_specialty = false;
  image_url = none;
  variants = small ∷ [];
  option_groups = [];
}
