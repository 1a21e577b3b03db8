-- ===== src/Queries/Resources.antt =====
-- Where the resources of the queries stand: the path of a resource gives the root of its cache keys.
use why_not_grace_pos.Prelude.{
  ◌&&◌, Option, none, some, List, [], ◌∷◌, ◌++◌, ◌≡◌, refl, ◌==◌, if◌then◌else◌,
}
use why_not_grace_pos.Api.Calls.{Segment, word, slot}
use why_not_grace_pos.Queries.Options.{Part, name, Key, maybe, maybe_number, or_all}
use why_not_grace_pos.Queries.Registry.{
  Query, orders, order, bill, unbilled_orders, kots, kitchen_queue, ready_for_service,
  delivery_orders, tables, rooms, current_shift, shift_report, shifts, feature_flags,
  business_settings, charge_bands, charge_preview, toggles, invoice_series, loyalty_account,
  loyalty_rewards, loyalty_rules, customers, staff, price_rules, notifications, dashboard,
  sales_report, orders_report, payments_report, top_items_report, categories_report,
  channels_report, business, categories, menu_items, item_translations, category_translations,
  current_user, qr_menu, qr_order_status, public_website, public_website_menu, integrations,
  subscription, audit_logs, platform_businesses, platform_business, platform_features,
  platform_toggles, platform_subscription, platform_website, query_of,
}

-- A resource has one cache key, or one for each choice of filters, all of which start the same.
pub data Root : Type 0 where
  whole part : Key → Root

abbrev pub root_at : List Segment → Option Root
root_at (word a ∷ []) =
    if a == "orders"
    then some (part (name "orders" ∷ []))
    else if a == "kot"
    then some (part (name "kot" ∷ []))
    else if a == "tables"
    then some (whole (name "tables" ∷ []))
    else if a == "rooms"
    then some (whole (name "rooms" ∷ []))
    else if a == "shifts"
    then some (whole (name "shifts" ∷ []))
    else if a == "settings"
    then some (whole (name "business-settings" ∷ []))
    else if a == "customers"
    then some (whole (name "customers" ∷ []))
    else if a == "staff"
    then some (whole (name "staff" ∷ []))
    else if a == "notifications"
    then some (whole (name "notifications" ∷ []))
    else if a == "dashboard"
    then some (whole (name "dashboard" ∷ []))
    else if a == "categories"
    then some (whole (name "categories" ∷ []))
    else if a == "integrations"
    then some (whole (name "integrations" ∷ []))
    else if a == "subscription"
    then some (whole (name "subscription" ∷ []))
    else none
root_at (word a ∷ slot id ∷ []) =
    if a == "orders"
    then some (whole (name "orders" ∷ name "detail" ∷ maybe id ∷ []))
    else if a == "billing"
    then some (whole (name "billing" ∷ maybe id ∷ []))
    else none
root_at (word a ∷ word b ∷ []) =
    if a == "billing" && b == "unbilled-orders"
    then some (whole (name "billing" ∷ name "unbilled-orders" ∷ []))
    else if a == "kitchen" && b == "queue"
    then some (whole (name "kitchen" ∷ name "queue" ∷ []))
    else if a == "delivery" && b == "orders"
    then some (whole (name "delivery" ∷ name "orders" ∷ []))
    else if a == "shifts" && b == "current"
    then some (whole (name "shift-current" ∷ []))
    else if a == "settings" && b == "features"
    then some (whole (name "feature-flags" ∷ []))
    else if a == "charges" && b == "bands"
    then some (whole (name "charge-bands" ∷ []))
    else if a == "charges" && b == "preview"
    then some (part (name "charge-preview" ∷ []))
    else if a == "settings" && b == "toggles"
    then some (whole (name "toggles" ∷ []))
    else if a == "settings" && b == "invoice-series"
    then some (whole (name "invoice-series" ∷ []))
    else if a == "loyalty" && b == "rules"
    then some (whole (name "loyalty" ∷ name "rules" ∷ []))
    else if a == "pricing" && b == "rules"
    then some (part (name "pricing-rules" ∷ []))
    else if a == "reports" && b == "sales"
    then some (part (name "reports" ∷ name "sales" ∷ []))
    else if a == "reports" && b == "orders"
    then some (part (name "reports" ∷ name "orders" ∷ []))
    else if a == "reports" && b == "payments"
    then some (part (name "reports" ∷ name "payments" ∷ []))
    else if a == "reports" && b == "top-items"
    then some (part (name "reports" ∷ name "top-items" ∷ []))
    else if a == "reports" && b == "categories"
    then some (part (name "reports" ∷ name "categories" ∷ []))
    else if a == "reports" && b == "channels"
    then some (part (name "reports" ∷ name "channels" ∷ []))
    else if a == "businesses" && b == "me"
    then some (whole (name "business" ∷ name "me" ∷ []))
    else if a == "menu" && b == "items"
    then some (whole (name "menu-items" ∷ []))
    else if a == "auth" && b == "me"
    then some (whole (name "auth" ∷ name "me" ∷ []))
    else if a == "qr" && b == "menu"
    then some (part (name "qr" ∷ name "menu" ∷ []))
    else if a == "admin" && b == "audit-logs"
    then some (part (name "admin" ∷ name "audit-logs" ∷ []))
    else if a == "platform" && b == "businesses"
    then some (whole (name "platform" ∷ name "businesses" ∷ []))
    else none
root_at (word a ∷ slot id ∷ word b ∷ []) =
    if a == "shifts" && b == "report"
    then some (whole (name "shift-report" ∷ maybe id ∷ []))
    else if a == "categories" && b == "translations"
    then some (whole (name "menu-category-translations" ∷ maybe id ∷ []))
    else none
root_at (word a ∷ word b ∷ slot id ∷ []) =
    if a == "loyalty" && b == "accounts"
    then some (whole (name "loyalty" ∷ name "account" ∷ maybe id ∷ []))
    else if a == "qr" && b == "orders"
    then some (part (name "qr" ∷ name "order-status" ∷ []))
    else if a == "website" && b == "public"
    then some (whole (name "website" ∷ name "public" ∷ maybe id ∷ []))
    else if a == "platform" && b == "businesses"
    then some (whole (name "platform" ∷ name "businesses" ∷ maybe id ∷ []))
    else none
root_at (word a ∷ word b ∷ word c ∷ []) =
    if a == "kitchen" && b == "service" && c == "ready"
    then some (whole (name "kitchen" ∷ name "ready" ∷ []))
    else none
root_at (word a ∷ word b ∷ slot id ∷ word c ∷ []) =
    if a == "loyalty" && b == "accounts" && c == "rewards"
    then some (whole (name "loyalty" ∷ name "rewards" ∷ maybe id ∷ []))
    else if a == "menu" && b == "items" && c == "translations"
    then some (whole (name "menu-item-translations" ∷ maybe id ∷ []))
    else if a == "website" && b == "public" && c == "menu"
    then some (part (name "website" ∷ name "public" ∷ maybe id ∷ name "menu" ∷ []))
    else if a == "platform" && b == "businesses" && c == "features"
    then some (whole (name "platform" ∷ name "features" ∷ maybe id ∷ []))
    else if a == "platform" && b == "businesses" && c == "toggles"
    then some (whole (name "platform" ∷ name "toggles" ∷ maybe id ∷ []))
    else if a == "platform" && b == "businesses" && c == "subscription"
    then some (whole (name "platform" ∷ name "subscription" ∷ maybe id ∷ []))
    else if a == "platform" && b == "businesses" && c == "website"
    then some (whole (name "platform" ∷ name "website" ∷ maybe id ∷ []))
    else none
root_at _ = none

unfoldable pub IsRoot : Root → Key → Type 0
IsRoot (whole k) key = key ≡ k
IsRoot (part k) key = (rest : Key) × (key ≡ k ++ rest)

unfoldable pub IsFound : Option Root → Key → Type 0
unfolding IsRoot
IsFound none key = ⊥
IsFound (some r) key = IsRoot r key

pub root_at-query :
    (q : Query) → IsFound (root_at ((query_of q).query_fn.path)) ((query_of q).query_key)
unfolding IsFound IsRoot
root_at-query (orders x0) = (Part.params x0 ∷ [], refl)
root_at-query (order x0) = refl
root_at-query (bill x0) = refl
root_at-query unbilled_orders = refl
root_at-query (kots x0) = (Part.params x0 ∷ [], refl)
root_at-query kitchen_queue = refl
root_at-query ready_for_service = refl
root_at-query delivery_orders = refl
root_at-query tables = refl
root_at-query rooms = refl
root_at-query current_shift = refl
root_at-query (shift_report x0) = refl
root_at-query shifts = refl
root_at-query feature_flags = refl
root_at-query business_settings = refl
root_at-query charge_bands = refl
root_at-query (charge_preview x0 x1) = (maybe_number x0 ∷ maybe x1 ∷ [], refl)
root_at-query toggles = refl
root_at-query invoice_series = refl
root_at-query (loyalty_account x0) = refl
root_at-query (loyalty_rewards x0) = refl
root_at-query loyalty_rules = refl
root_at-query customers = refl
root_at-query staff = refl
root_at-query (price_rules x0) = (or_all x0 ∷ [], refl)
root_at-query notifications = refl
root_at-query (dashboard x0) = refl
root_at-query (sales_report x0) = (Part.params x0 ∷ [], refl)
root_at-query (orders_report x0) = (Part.params x0 ∷ [], refl)
root_at-query (payments_report x0) = (Part.params x0 ∷ [], refl)
root_at-query (top_items_report x0) = (Part.params x0 ∷ [], refl)
root_at-query (categories_report x0) = (Part.params x0 ∷ [], refl)
root_at-query (channels_report x0) = (Part.params x0 ∷ [], refl)
root_at-query business = refl
root_at-query categories = refl
root_at-query menu_items = refl
root_at-query (item_translations x0) = refl
root_at-query (category_translations x0) = refl
root_at-query (current_user x0) = refl
root_at-query (qr_menu x0 x1) = (maybe x0 ∷ name x1 ∷ [], refl)
root_at-query (qr_order_status x0 x1 x2) = (maybe x0 ∷ maybe x1 ∷ [], refl)
root_at-query (public_website x0) = refl
root_at-query (public_website_menu x0 x1) = (name x1 ∷ [], refl)
root_at-query integrations = refl
root_at-query subscription = refl
root_at-query (audit_logs x0) = (or_all x0 ∷ [], refl)
root_at-query platform_businesses = refl
root_at-query (platform_business x0) = refl
root_at-query (platform_features x0) = refl
root_at-query (platform_toggles x0) = refl
root_at-query (platform_subscription x0) = refl
root_at-query (platform_website x0) = refl
