-- ===== src/Queries/Declared.antt =====
-- The calls of the hooks in frontend/src/features, against the paths that the backend declares.
use why_not_grace_pos.Prelude.{true, ◌≡◌, refl}
use why_not_grace_pos.Api.Paths.{declares}
use why_not_grace_pos.Api.Contract.{all_paths}
use why_not_grace_pos.Queries.Registry.{
  Query, Mutation, orders, order, bill, unbilled_orders, kots, kitchen_queue, ready_for_service,
  delivery_orders, tables, rooms, current_shift, shift_report, shifts, feature_flags,
  business_settings, charge_bands, charge_preview, toggles, invoice_series, loyalty_account,
  loyalty_rewards, loyalty_rules, customers, staff, price_rules, notifications, dashboard,
  sales_report, orders_report, payments_report, top_items_report, categories_report,
  channels_report, business, categories, menu_items, item_translations, category_translations,
  current_user, qr_menu, qr_order_status, public_website, public_website_menu, integrations,
  subscription, audit_logs, platform_businesses, platform_business, platform_features,
  platform_toggles, platform_subscription, platform_website, create_order, cancel_order,
  transfer_session, merge_sessions, generate_bill, apply_discount, void_bill_item, comp_bill_item,
  uncomp_bill_item, void_bill, mark_bill_no_charge, update_kot_status, serve_kot,
  update_delivery_status, create_table, update_table, delete_table, create_room, update_room,
  delete_room, record_manual_payment, create_razorpay_order, verify_razorpay_payment, open_shift,
  close_shift, update_business_settings, create_charge_band, update_charge_band, delete_charge_band,
  update_toggle, reset_toggle, create_loyalty_rule, update_loyalty_rule, redeem_reward,
  create_customer, update_customer, create_staff, update_staff, reset_staff_access,
  create_price_rule, update_price_rule, delete_price_rule, mark_notification_read,
  mark_all_notifications_read, update_business, create_category, update_category, delete_category,
  create_menu_item, update_menu_item, delete_menu_item, add_variant, add_option_group, add_option,
  update_variant, delete_variant, update_option_group, delete_option_group, update_option,
  delete_option, set_item_translation, set_category_translation, place_qr_order,
  connect_integration, disconnect_integration, sync_integration_menu, provision_business,
  set_business_active, set_platform_feature, set_platform_toggle, provision_subscription,
  renew_subscription, suspend_subscription, cancel_subscription, set_platform_website,
  extract_menu_from_photos, publish_imported_menu, login, logout, forgot_password, reset_password,
  platform_login, platform_logout, query_of, mutation_of,
}

query-declared : (q : Query) → declares all_paths ((query_of q).query_fn) ≡ true
query-declared (orders _) = refl
query-declared (order _) = refl
query-declared (bill _) = refl
query-declared unbilled_orders = refl
query-declared (kots _) = refl
query-declared kitchen_queue = refl
query-declared ready_for_service = refl
query-declared delivery_orders = refl
query-declared tables = refl
query-declared rooms = refl
query-declared current_shift = refl
query-declared (shift_report _) = refl
query-declared shifts = refl
query-declared feature_flags = refl
query-declared business_settings = refl
query-declared charge_bands = refl
query-declared (charge_preview _ _) = refl
query-declared toggles = refl
query-declared invoice_series = refl
query-declared (loyalty_account _) = refl
query-declared (loyalty_rewards _) = refl
query-declared loyalty_rules = refl
query-declared customers = refl
query-declared staff = refl
query-declared (price_rules _) = refl
query-declared notifications = refl
query-declared (dashboard _) = refl
query-declared (sales_report _) = refl
query-declared (orders_report _) = refl
query-declared (payments_report _) = refl
query-declared (top_items_report _) = refl
query-declared (categories_report _) = refl
query-declared (channels_report _) = refl
query-declared business = refl
query-declared categories = refl
query-declared menu_items = refl
query-declared (item_translations _) = refl
query-declared (category_translations _) = refl
query-declared (current_user _) = refl
query-declared (qr_menu _ _) = refl
query-declared (qr_order_status _ _ _) = refl
query-declared (public_website _) = refl
query-declared (public_website_menu _ _) = refl
query-declared integrations = refl
query-declared subscription = refl
query-declared (audit_logs _) = refl
query-declared platform_businesses = refl
query-declared (platform_business _) = refl
query-declared (platform_features _) = refl
query-declared (platform_toggles _) = refl
query-declared (platform_subscription _) = refl
query-declared (platform_website _) = refl

mutation-declared : (m : Mutation) → declares all_paths ((mutation_of m).mutation_fn) ≡ true
mutation-declared (create_order _) = refl
mutation-declared (cancel_order _) = refl
mutation-declared (transfer_session _ _) = refl
mutation-declared (merge_sessions _ _) = refl
mutation-declared (generate_bill _) = refl
mutation-declared (apply_discount _ _) = refl
mutation-declared (void_bill_item _ _ _) = refl
mutation-declared (comp_bill_item _ _ _) = refl
mutation-declared (uncomp_bill_item _ _) = refl
mutation-declared (void_bill _ _) = refl
mutation-declared (mark_bill_no_charge _ _) = refl
mutation-declared (update_kot_status _ _) = refl
mutation-declared (serve_kot _) = refl
mutation-declared (update_delivery_status _ _) = refl
mutation-declared (create_table _) = refl
mutation-declared (update_table _ _) = refl
mutation-declared (delete_table _) = refl
mutation-declared (create_room _) = refl
mutation-declared (update_room _ _) = refl
mutation-declared (delete_room _) = refl
mutation-declared (record_manual_payment _) = refl
mutation-declared (create_razorpay_order _ _) = refl
mutation-declared (verify_razorpay_payment _) = refl
mutation-declared (open_shift _) = refl
mutation-declared (close_shift _ _) = refl
mutation-declared (update_business_settings _) = refl
mutation-declared (create_charge_band _) = refl
mutation-declared (update_charge_band _ _) = refl
mutation-declared (delete_charge_band _) = refl
mutation-declared (update_toggle _ _) = refl
mutation-declared (reset_toggle _) = refl
mutation-declared (create_loyalty_rule _) = refl
mutation-declared (update_loyalty_rule _ _) = refl
mutation-declared (redeem_reward _ _) = refl
mutation-declared (create_customer _) = refl
mutation-declared (update_customer _ _) = refl
mutation-declared (create_staff _) = refl
mutation-declared (update_staff _ _) = refl
mutation-declared (reset_staff_access _) = refl
mutation-declared (create_price_rule _) = refl
mutation-declared (update_price_rule _ _) = refl
mutation-declared (delete_price_rule _) = refl
mutation-declared (mark_notification_read _) = refl
mutation-declared mark_all_notifications_read = refl
mutation-declared (update_business _) = refl
mutation-declared (create_category _) = refl
mutation-declared (update_category _ _) = refl
mutation-declared (delete_category _) = refl
mutation-declared (create_menu_item _) = refl
mutation-declared (update_menu_item _ _) = refl
mutation-declared (delete_menu_item _) = refl
mutation-declared (add_variant _ _) = refl
mutation-declared (add_option_group _ _) = refl
mutation-declared (add_option _ _) = refl
mutation-declared (update_variant _ _) = refl
mutation-declared (delete_variant _) = refl
mutation-declared (update_option_group _ _) = refl
mutation-declared (delete_option_group _) = refl
mutation-declared (update_option _ _) = refl
mutation-declared (delete_option _) = refl
mutation-declared (set_item_translation _ _ _) = refl
mutation-declared (set_category_translation _ _ _) = refl
mutation-declared (place_qr_order _ _) = refl
mutation-declared (connect_integration _ _) = refl
mutation-declared (disconnect_integration _) = refl
mutation-declared (sync_integration_menu _) = refl
mutation-declared (provision_business _) = refl
mutation-declared (set_business_active _ _) = refl
mutation-declared (set_platform_feature _ _ _) = refl
mutation-declared (set_platform_toggle _ _ _) = refl
mutation-declared (provision_subscription _ _) = refl
mutation-declared (renew_subscription _ _) = refl
mutation-declared (suspend_subscription _) = refl
mutation-declared (cancel_subscription _) = refl
mutation-declared (set_platform_website _ _) = refl
mutation-declared (extract_menu_from_photos _ _) = refl
mutation-declared (publish_imported_menu _ _) = refl
mutation-declared (login _) = refl
mutation-declared (logout _) = refl
mutation-declared (forgot_password _) = refl
mutation-declared (reset_password _) = refl
mutation-declared (platform_login _) = refl
mutation-declared (platform_logout _) = refl

-- Every query and every mutation of the hooks calls a path that the backend declares, with a method that
-- the path takes and with an id exactly where the path has a parameter.
pub hook-declared :
    ((q : Query) → declares all_paths ((query_of q).query_fn) ≡ true)
    × ((m : Mutation) → declares all_paths ((mutation_of m).mutation_fn) ≡ true)
hook-declared = (query-declared, mutation-declared)
