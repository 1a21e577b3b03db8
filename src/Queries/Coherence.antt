-- ===== src/Queries/Coherence.antt =====
-- The entries of the cache that the hooks of frontend/src/features share.
use why_not_grace_pos.Prelude.{
  Bool, true, false, not, Option, none, some, ◌≡◌, ◌∙◌, refl, sym, ap, ◌==◌, arith,
}
use why_not_grace_pos.Api.Calls.{Call}
use why_not_grace_pos.Queries.Keys.{call_at}
use why_not_grace_pos.Queries.Registry.{
  Query, orders, order, bill, unbilled_orders, kots, kitchen_queue, ready_for_service,
  delivery_orders, tables, rooms, current_shift, shift_report, shifts, feature_flags,
  business_settings, charge_bands, charge_preview, toggles, invoice_series, loyalty_account,
  loyalty_rewards, loyalty_rules, customers, staff, price_rules, notifications, dashboard,
  sales_report, orders_report, payments_report, top_items_report, categories_report,
  channels_report, business, categories, menu_items, item_translations, category_translations,
  current_user, qr_menu, qr_order_status, public_website, public_website_menu, integrations,
  subscription, audit_logs, platform_businesses, platform_business, platform_features,
  platform_toggles, platform_subscription, platform_website, query_of,
}

-- A bill's id is none of the words that stand after "billing" in a key, and a filter is not "all".
abbrev pub is_apart : Query → Bool
is_apart (bill (some id)) = not (id == "unbilled-orders")
is_apart (price_rules (some id)) = not (id == "all")
is_apart (audit_logs (some action)) = not (action == "all")
is_apart _ = true

is_false : (b : Bool) → not b ≡ true → b ≡ false
is_false b h = ground arith

-- Reading back gives the query's own call.
call_at-query_key :
    (q : Query)
    → is_apart q ≡ true
    → call_at ((query_of q).query_key) ≡ some ((query_of q).query_fn)
call_at-query_key (orders x0) h = refl
call_at-query_key (order none) h = refl
call_at-query_key (order (some s0)) h = refl
call_at-query_key (bill none) h = refl
call_at-query_key (bill (some id)) h = rw (is_false (id == "unbilled-orders") h) refl
call_at-query_key unbilled_orders h = refl
call_at-query_key (kots x0) h = refl
call_at-query_key kitchen_queue h = refl
call_at-query_key ready_for_service h = refl
call_at-query_key delivery_orders h = refl
call_at-query_key tables h = refl
call_at-query_key rooms h = refl
call_at-query_key current_shift h = refl
call_at-query_key (shift_report none) h = refl
call_at-query_key (shift_report (some s0)) h = refl
call_at-query_key shifts h = refl
call_at-query_key feature_flags h = refl
call_at-query_key business_settings h = refl
call_at-query_key charge_bands h = refl
call_at-query_key (charge_preview none none) h = refl
call_at-query_key (charge_preview none (some s1)) h = refl
call_at-query_key (charge_preview (some s0) none) h = refl
call_at-query_key (charge_preview (some s0) (some s1)) h = refl
call_at-query_key toggles h = refl
call_at-query_key invoice_series h = refl
call_at-query_key (loyalty_account none) h = refl
call_at-query_key (loyalty_account (some s0)) h = refl
call_at-query_key (loyalty_rewards none) h = refl
call_at-query_key (loyalty_rewards (some s0)) h = refl
call_at-query_key loyalty_rules h = refl
call_at-query_key customers h = refl
call_at-query_key staff h = refl
call_at-query_key (price_rules none) h = refl
call_at-query_key (price_rules (some id)) h = rw (is_false (id == "all") h) refl
call_at-query_key notifications h = refl
call_at-query_key (dashboard x0) h = refl
call_at-query_key (sales_report x0) h = refl
call_at-query_key (orders_report x0) h = refl
call_at-query_key (payments_report x0) h = refl
call_at-query_key (top_items_report x0) h = refl
call_at-query_key (categories_report x0) h = refl
call_at-query_key (channels_report x0) h = refl
call_at-query_key business h = refl
call_at-query_key categories h = refl
call_at-query_key menu_items h = refl
call_at-query_key (item_translations none) h = refl
call_at-query_key (item_translations (some s0)) h = refl
call_at-query_key (category_translations none) h = refl
call_at-query_key (category_translations (some s0)) h = refl
call_at-query_key (current_user x0) h = refl
call_at-query_key (qr_menu none x1) h = refl
call_at-query_key (qr_menu (some s0) x1) h = refl
call_at-query_key (qr_order_status none none s) h = refl
call_at-query_key (qr_order_status none (some s1) s) h = refl
call_at-query_key (qr_order_status (some s0) none s) h = refl
call_at-query_key (qr_order_status (some s0) (some s1) s) h = refl
call_at-query_key (public_website none) h = refl
call_at-query_key (public_website (some s0)) h = refl
call_at-query_key (public_website_menu none x1) h = refl
call_at-query_key (public_website_menu (some s0) x1) h = refl
call_at-query_key integrations h = refl
call_at-query_key subscription h = refl
call_at-query_key (audit_logs none) h = refl
call_at-query_key (audit_logs (some action)) h = rw (is_false (action == "all") h) refl
call_at-query_key platform_businesses h = refl
call_at-query_key (platform_business none) h = refl
call_at-query_key (platform_business (some s0)) h = refl
call_at-query_key (platform_features none) h = refl
call_at-query_key (platform_features (some s0)) h = refl
call_at-query_key (platform_toggles none) h = refl
call_at-query_key (platform_toggles (some s0)) h = refl
call_at-query_key (platform_subscription none) h = refl
call_at-query_key (platform_subscription (some s0)) h = refl
call_at-query_key (platform_website none) h = refl
call_at-query_key (platform_website (some s0)) h = refl

call_or : Call → Option Call → Call
call_or c none = c
call_or c (some d) = d

-- Two queries of the same key make the same call of the backend, provided that no bill has the id
-- "unbilled-orders" and that neither an item nor an action that is filtered by is called "all".
pub query_key-query_fn :
    (q r : Query)
    → is_apart q ≡ true
    → is_apart r ≡ true
    → (query_of q).query_key ≡ (query_of r).query_key
    → (query_of q).query_fn ≡ (query_of r).query_fn
unfolding call_or
query_key-query_fn q r hq hr e =
    ap (call_or ((query_of q).query_fn))
      (sym (call_at-query_key q hq) ∙ ap call_at e ∙ call_at-query_key r hr)
