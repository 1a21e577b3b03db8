-- ===== src/Queries/Enabled.antt =====
-- When a query of the hooks in frontend/src/features runs.
use why_not_grace_pos.Prelude.{true, every, Bool, ◌≡◌, refl, arith, is_set}
use why_not_grace_pos.Api.Calls.{Segment, word, slot}
use why_not_grace_pos.Queries.Registry.{
  Query, orders, order, bill, unbilled_orders, kots, kitchen_queue, ready_for_service,
  delivery_orders, tables, rooms, current_shift, shift_report, shifts, feature_flags,
  business_settings, charge_bands, charge_preview, toggles, invoice_series, loyalty_account,
  loyalty_rewards, loyalty_rules, customers, staff, price_rules, notifications, dashboard,
  sales_report, orders_report, payments_report, top_items_report, categories_report,
  channels_report, business, categories, menu_items, item_translations, category_translations,
  current_user, qr_menu, qr_order_status, public_website, public_website_menu, integrations,
  subscription, audit_logs, platform_businesses, platform_business, platform_features,
  platform_toggles, platform_subscription, platform_website, query_of,
}

-- A segment that the address can hold: an id must be there and not be empty.
abbrev pub is_filled : Segment → Bool
is_filled (word w) = true
is_filled (slot id) = is_set id

-- A query that is enabled has every id of its address: it asks the backend for no `/orders/undefined`
-- and for no `/orders/` either.
pub enabled-is_filled :
    (q : Query) → (query_of q).enabled ≡ true → every is_filled ((query_of q).query_fn.path) ≡ true
enabled-is_filled (orders x0) h = refl
enabled-is_filled (order x0) h = ground arith
enabled-is_filled (bill x0) h = ground arith
enabled-is_filled unbilled_orders h = refl
enabled-is_filled (kots x0) h = refl
enabled-is_filled kitchen_queue h = refl
enabled-is_filled ready_for_service h = refl
enabled-is_filled delivery_orders h = refl
enabled-is_filled tables h = refl
enabled-is_filled rooms h = refl
enabled-is_filled current_shift h = refl
enabled-is_filled (shift_report x0) h = ground arith
enabled-is_filled shifts h = refl
enabled-is_filled feature_flags h = refl
enabled-is_filled business_settings h = refl
enabled-is_filled charge_bands h = refl
enabled-is_filled (charge_preview x0 x1) h = refl
enabled-is_filled toggles h = refl
enabled-is_filled invoice_series h = refl
enabled-is_filled (loyalty_account x0) h = ground arith
enabled-is_filled (loyalty_rewards x0) h = ground arith
enabled-is_filled loyalty_rules h = refl
enabled-is_filled customers h = refl
enabled-is_filled staff h = refl
enabled-is_filled (price_rules x0) h = refl
enabled-is_filled notifications h = refl
enabled-is_filled (dashboard x0) h = refl
enabled-is_filled (sales_report x0) h = refl
enabled-is_filled (orders_report x0) h = refl
enabled-is_filled (payments_report x0) h = refl
enabled-is_filled (top_items_report x0) h = refl
enabled-is_filled (categories_report x0) h = refl
enabled-is_filled (channels_report x0) h = refl
enabled-is_filled business h = refl
enabled-is_filled categories h = refl
enabled-is_filled menu_items h = refl
enabled-is_filled (item_translations x0) h = ground arith
enabled-is_filled (category_translations x0) h = ground arith
enabled-is_filled (current_user x0) h = refl
enabled-is_filled (qr_menu x0 x1) h = refl
enabled-is_filled (qr_order_status x0 x1 x2) h = ground arith
enabled-is_filled (public_website x0) h = ground arith
enabled-is_filled (public_website_menu x0 x1) h = ground arith
enabled-is_filled integrations h = refl
enabled-is_filled subscription h = refl
enabled-is_filled (audit_logs x0) h = refl
enabled-is_filled platform_businesses h = refl
enabled-is_filled (platform_business x0) h = ground arith
enabled-is_filled (platform_features x0) h = ground arith
enabled-is_filled (platform_toggles x0) h = ground arith
enabled-is_filled (platform_subscription x0) h = ground arith
enabled-is_filled (platform_website x0) h = ground arith
