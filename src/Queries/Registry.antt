-- ===== src/Queries/Registry.antt =====
-- All the queries and all the mutations of the hooks, each under the name of its hook. The query of a
-- guest's order comes with the status that was last fetched, and a sign-out with its refresh token.
use why_not_grace_pos.Prelude.{String, Bool, Option}
use why_not_grace_pos.Access.{UserRole}
use why_not_grace_pos.Progress.{OrderStatus}
use why_not_grace_pos.Api.Calls.{Params}
use why_not_grace_pos.Queries.Options.{QueryOptions, MutationOptions}
use why_not_grace_pos.Queries.OrderHooks.{
  use_orders, use_order, use_create_order, use_cancel_order, use_transfer_session,
  use_merge_sessions,
}
use why_not_grace_pos.Queries.BillingHooks.{
  use_bill, use_unbilled_orders, use_generate_bill, use_apply_discount, use_void_bill_item,
  use_comp_bill_item, use_uncomp_bill_item, use_void_bill, use_mark_bill_no_charge,
}
use why_not_grace_pos.Queries.KotHooks.{use_kots, use_update_kot_status}
use why_not_grace_pos.Queries.KitchenHooks.{use_kitchen_queue, use_ready_for_service, use_serve_kot}
use why_not_grace_pos.Queries.DeliveryHooks.{use_delivery_orders, use_update_delivery_status}
use why_not_grace_pos.Queries.TableHooks.{
  use_tables, use_create_table, use_update_table, use_delete_table,
}
use why_not_grace_pos.Queries.RoomHooks.{
  use_rooms, use_create_room, use_update_room, use_delete_room,
}
use why_not_grace_pos.Queries.PaymentHooks.{
  use_record_manual_payment, use_create_razorpay_order, use_verify_razorpay_payment,
}
use why_not_grace_pos.Queries.ShiftHooks.{
  use_current_shift, use_shift_report, use_shifts, use_open_shift, use_close_shift,
}
use why_not_grace_pos.Queries.SettingHooks.{
  use_feature_flags, use_business_settings, use_update_business_settings, use_charge_bands,
  use_create_charge_band, use_update_charge_band, use_delete_charge_band, use_charge_preview,
  use_toggles, use_update_toggle, use_reset_toggle, use_invoice_series,
}
use why_not_grace_pos.Queries.LoyaltyHooks.{
  use_loyalty_account, use_loyalty_rewards, use_loyalty_rules, use_create_loyalty_rule,
  use_update_loyalty_rule, use_redeem_reward,
}
use why_not_grace_pos.Queries.CustomerHooks.{
  use_customers, use_create_customer, use_update_customer,
}
use why_not_grace_pos.Queries.StaffHooks.{
  use_staff, use_create_staff, use_update_staff, use_reset_staff_access,
}
use why_not_grace_pos.Queries.PricingHooks.{
  use_price_rules, use_create_price_rule, use_update_price_rule, use_delete_price_rule,
}
use why_not_grace_pos.Queries.NotificationHooks.{
  use_notifications, use_mark_notification_read, use_mark_all_notifications_read,
}
use why_not_grace_pos.Queries.DashboardHooks.{use_dashboard}
use why_not_grace_pos.Queries.ReportHooks.{
  use_sales_report, use_orders_report, use_payments_report, use_top_items_report,
  use_categories_report, use_channels_report,
}
use why_not_grace_pos.Queries.BusinessHooks.{use_business, use_update_business}
use why_not_grace_pos.Queries.MenuHooks.{
  use_categories, use_menu_items, use_create_category, use_update_category, use_delete_category,
  use_create_menu_item, use_update_menu_item, use_delete_menu_item, use_add_variant,
  use_add_option_group, use_add_option, use_update_variant, use_delete_variant,
  use_update_option_group, use_delete_option_group, use_update_option, use_delete_option,
  use_item_translations, use_set_item_translation, use_category_translations,
  use_set_category_translation,
}
use why_not_grace_pos.Queries.AuthHooks.{
  use_current_user, use_login, use_logout, use_forgot_password, use_reset_password,
}
use why_not_grace_pos.Queries.GuestHooks.{use_qr_menu, use_place_qr_order, use_qr_order_status}
use why_not_grace_pos.Queries.WebsiteHooks.{use_public_website, use_public_website_menu}
use why_not_grace_pos.Queries.IntegrationHooks.{
  use_integrations, use_connect_integration, use_disconnect_integration, use_sync_integration_menu,
}
use why_not_grace_pos.Queries.SubscriptionHooks.{use_subscription}
use why_not_grace_pos.Queries.AuditHooks.{use_audit_logs}
use why_not_grace_pos.Queries.PlatformHooks.{
  use_platform_login, use_platform_logout, use_platform_businesses, use_platform_business,
  use_provision_business, use_set_business_active, use_platform_features, use_set_platform_feature,
  use_platform_toggles, use_set_platform_toggle, use_platform_subscription,
  use_provision_subscription, use_renew_subscription, use_suspend_subscription,
  use_cancel_subscription, use_platform_website, use_set_platform_website,
  use_extract_menu_from_photos, use_publish_imported_menu,
}

pub data Query : Type 0 where
  orders : Params → Query
  order : Option String → Query
  bill : Option String → Query
  unbilled_orders : Query
  kots : Params → Query
  kitchen_queue : Query
  ready_for_service : Query
  delivery_orders : Query
  tables : Query
  rooms : Query
  current_shift : Query
  shift_report : Option String → Query
  shifts : Query
  feature_flags : Query
  business_settings : Query
  charge_bands : Query
  charge_preview : Option String → Option String → Query
  toggles : Query
  invoice_series : Query
  loyalty_account : Option String → Query
  loyalty_rewards : Option String → Query
  loyalty_rules : Query
  customers : Query
  staff : Query
  price_rules : Option String → Query
  notifications : Query
  dashboard : Option UserRole → Query
  sales_report : Params → Query
  orders_report : Params → Query
  payments_report : Params → Query
  top_items_report : Params → Query
  categories_report : Params → Query
  channels_report : Params → Query
  business : Query
  categories : Query
  menu_items : Query
  item_translations : Option String → Query
  category_translations : Option String → Query
  current_user : Bool → Query
  qr_menu : Option String → String → Query
  qr_order_status : Option String → Option String → Option OrderStatus → Query
  public_website : Option String → Query
  public_website_menu : Option String → String → Query
  integrations : Query
  subscription : Query
  audit_logs : Option String → Query
  platform_businesses : Query
  platform_business : Option String → Query
  platform_features : Option String → Query
  platform_toggles : Option String → Query
  platform_subscription : Option String → Query
  platform_website : Option String → Query

pub data Mutation : Type 0 where
  create_order : String → Mutation
  cancel_order : Option String → Mutation
  transfer_session : Option String → Option String → Mutation
  merge_sessions : Option String → Option String → Mutation
  generate_bill : String → Mutation
  apply_discount : Option String → String → Mutation
  void_bill_item : Option String → Option String → Option String → Mutation
  comp_bill_item : Option String → Option String → Option String → Mutation
  uncomp_bill_item : Option String → Option String → Mutation
  void_bill : Option String → Option String → Mutation
  mark_bill_no_charge : Option String → Option String → Mutation
  update_kot_status : Option String → String → Mutation
  serve_kot : Option String → Mutation
  update_delivery_status : Option String → String → Mutation
  create_table : String → Mutation
  update_table : Option String → String → Mutation
  delete_table : Option String → Mutation
  create_room : String → Mutation
  update_room : Option String → String → Mutation
  delete_room : Option String → Mutation
  record_manual_payment : String → Mutation
  create_razorpay_order : String → Option String → Mutation
  verify_razorpay_payment : String → Mutation
  open_shift : String → Mutation
  close_shift : Option String → String → Mutation
  update_business_settings : String → Mutation
  create_charge_band : String → Mutation
  update_charge_band : Option String → String → Mutation
  delete_charge_band : Option String → Mutation
  update_toggle : Option String → Bool → Mutation
  reset_toggle : Option String → Mutation
  create_loyalty_rule : String → Mutation
  update_loyalty_rule : Option String → String → Mutation
  redeem_reward : Option String → String → Mutation
  create_customer : String → Mutation
  update_customer : Option String → String → Mutation
  create_staff : String → Mutation
  update_staff : Option String → String → Mutation
  reset_staff_access : Option String → Mutation
  create_price_rule : String → Mutation
  update_price_rule : Option String → String → Mutation
  delete_price_rule : Option String → Mutation
  mark_notification_read : Option String → Mutation
  mark_all_notifications_read : Mutation
  update_business : String → Mutation
  create_category : String → Mutation
  update_category : Option String → String → Mutation
  delete_category : Option String → Mutation
  create_menu_item : String → Mutation
  update_menu_item : Option String → String → Mutation
  delete_menu_item : Option String → Mutation
  add_variant : Option String → String → Mutation
  add_option_group : Option String → String → Mutation
  add_option : Option String → String → Mutation
  update_variant : Option String → String → Mutation
  delete_variant : Option String → Mutation
  update_option_group : Option String → String → Mutation
  delete_option_group : Option String → Mutation
  update_option : Option String → String → Mutation
  delete_option : Option String → Mutation
  set_item_translation : Option String → Option String → String → Mutation
  set_category_translation : Option String → Option String → String → Mutation
  place_qr_order : String → String → Mutation
  connect_integration : Option String → String → Mutation
  disconnect_integration : Option String → Mutation
  sync_integration_menu : Option String → Mutation
  provision_business : String → Mutation
  set_business_active : Option String → String → Mutation
  set_platform_feature : Option String → Option String → String → Mutation
  set_platform_toggle : Option String → Option String → String → Mutation
  provision_subscription : Option String → String → Mutation
  renew_subscription : Option String → String → Mutation
  suspend_subscription : Option String → Mutation
  cancel_subscription : Option String → Mutation
  set_platform_website : Option String → String → Mutation
  extract_menu_from_photos : Option String → String → Mutation
  publish_imported_menu : Option String → String → Mutation
  login logout forgot_password reset_password platform_login platform_logout : String → Mutation

abbrev pub query_of : Query → QueryOptions
query_of (orders filters) = use_orders filters
query_of (order id) = use_order id
query_of (bill bill_id) = use_bill bill_id
query_of unbilled_orders = use_unbilled_orders
query_of (kots filters) = use_kots filters
query_of kitchen_queue = use_kitchen_queue
query_of ready_for_service = use_ready_for_service
query_of delivery_orders = use_delivery_orders
query_of tables = use_tables
query_of rooms = use_rooms
query_of current_shift = use_current_shift
query_of (shift_report shift_id) = use_shift_report shift_id
query_of shifts = use_shifts
query_of feature_flags = use_feature_flags
query_of business_settings = use_business_settings
query_of charge_bands = use_charge_bands
query_of (charge_preview amount context) = use_charge_preview amount context
query_of toggles = use_toggles
query_of invoice_series = use_invoice_series
query_of (loyalty_account customer_id) = use_loyalty_account customer_id
query_of (loyalty_rewards customer_id) = use_loyalty_rewards customer_id
query_of loyalty_rules = use_loyalty_rules
query_of customers = use_customers
query_of staff = use_staff
query_of (price_rules item_id) = use_price_rules item_id
query_of notifications = use_notifications
query_of (dashboard role) = use_dashboard role
query_of (sales_report params) = use_sales_report params
query_of (orders_report params) = use_orders_report params
query_of (payments_report params) = use_payments_report params
query_of (top_items_report params) = use_top_items_report params
query_of (categories_report params) = use_categories_report params
query_of (channels_report params) = use_channels_report params
query_of business = use_business
query_of categories = use_categories
query_of menu_items = use_menu_items
query_of (item_translations item_id) = use_item_translations item_id
query_of (category_translations category_id) = use_category_translations category_id
query_of (current_user enabled) = use_current_user enabled
query_of (qr_menu token lang) = use_qr_menu token lang
query_of (qr_order_status token order_id status) = use_qr_order_status token order_id status
query_of (public_website slug) = use_public_website slug
query_of (public_website_menu slug lang) = use_public_website_menu slug lang
query_of integrations = use_integrations
query_of subscription = use_subscription
query_of (audit_logs action) = use_audit_logs action
query_of platform_businesses = use_platform_businesses
query_of (platform_business business_id) = use_platform_business business_id
query_of (platform_features business_id) = use_platform_features business_id
query_of (platform_toggles business_id) = use_platform_toggles business_id
query_of (platform_subscription business_id) = use_platform_subscription business_id
query_of (platform_website business_id) = use_platform_website business_id

abbrev pub mutation_of : Mutation → MutationOptions
mutation_of (create_order payload) = use_create_order payload
mutation_of (cancel_order id) = use_cancel_order id
mutation_of (transfer_session session_id location_id) = use_transfer_session session_id location_id
mutation_of (merge_sessions session_id into_session_id) =
    use_merge_sessions session_id into_session_id
mutation_of (generate_bill payload) = use_generate_bill payload
mutation_of (apply_discount bill_id payload) = use_apply_discount bill_id payload
mutation_of (void_bill_item bill_id item_id reason) = use_void_bill_item bill_id item_id reason
mutation_of (comp_bill_item bill_id item_id reason) = use_comp_bill_item bill_id item_id reason
mutation_of (uncomp_bill_item bill_id item_id) = use_uncomp_bill_item bill_id item_id
mutation_of (void_bill bill_id reason) = use_void_bill bill_id reason
mutation_of (mark_bill_no_charge bill_id reason) = use_mark_bill_no_charge bill_id reason
mutation_of (update_kot_status id payload) = use_update_kot_status id payload
mutation_of (serve_kot kot_id) = use_serve_kot kot_id
mutation_of (update_delivery_status order_id payload) = use_update_delivery_status order_id payload
mutation_of (create_table payload) = use_create_table payload
mutation_of (update_table table_id payload) = use_update_table table_id payload
mutation_of (delete_table table_id) = use_delete_table table_id
mutation_of (create_room payload) = use_create_room payload
mutation_of (update_room room_id payload) = use_update_room room_id payload
mutation_of (delete_room room_id) = use_delete_room room_id
mutation_of (record_manual_payment payload) = use_record_manual_payment payload
mutation_of (create_razorpay_order payload idempotency_key) =
    use_create_razorpay_order payload idempotency_key
mutation_of (verify_razorpay_payment payload) = use_verify_razorpay_payment payload
mutation_of (open_shift opening_float) = use_open_shift opening_float
mutation_of (close_shift shift_id payload) = use_close_shift shift_id payload
mutation_of (update_business_settings payload) = use_update_business_settings payload
mutation_of (create_charge_band payload) = use_create_charge_band payload
mutation_of (update_charge_band band_id payload) = use_update_charge_band band_id payload
mutation_of (delete_charge_band band_id) = use_delete_charge_band band_id
mutation_of (update_toggle key enabled) = use_update_toggle key enabled
mutation_of (reset_toggle key) = use_reset_toggle key
mutation_of (create_loyalty_rule payload) = use_create_loyalty_rule payload
mutation_of (update_loyalty_rule rule_id payload) = use_update_loyalty_rule rule_id payload
mutation_of (redeem_reward reward_id payload) = use_redeem_reward reward_id payload
mutation_of (create_customer payload) = use_create_customer payload
mutation_of (update_customer id payload) = use_update_customer id payload
mutation_of (create_staff payload) = use_create_staff payload
mutation_of (update_staff staff_id payload) = use_update_staff staff_id payload
mutation_of (reset_staff_access staff_id) = use_reset_staff_access staff_id
mutation_of (create_price_rule payload) = use_create_price_rule payload
mutation_of (update_price_rule rule_id payload) = use_update_price_rule rule_id payload
mutation_of (delete_price_rule rule_id) = use_delete_price_rule rule_id
mutation_of (mark_notification_read notification_id) = use_mark_notification_read notification_id
mutation_of mark_all_notifications_read = use_mark_all_notifications_read
mutation_of (update_business payload) = use_update_business payload
mutation_of (create_category payload) = use_create_category payload
mutation_of (update_category category_id payload) = use_update_category category_id payload
mutation_of (delete_category category_id) = use_delete_category category_id
mutation_of (create_menu_item payload) = use_create_menu_item payload
mutation_of (update_menu_item item_id payload) = use_update_menu_item item_id payload
mutation_of (delete_menu_item item_id) = use_delete_menu_item item_id
mutation_of (add_variant item_id payload) = use_add_variant item_id payload
mutation_of (add_option_group item_id payload) = use_add_option_group item_id payload
mutation_of (add_option group_id payload) = use_add_option group_id payload
mutation_of (update_variant variant_id payload) = use_update_variant variant_id payload
mutation_of (delete_variant variant_id) = use_delete_variant variant_id
mutation_of (update_option_group group_id payload) = use_update_option_group group_id payload
mutation_of (delete_option_group group_id) = use_delete_option_group group_id
mutation_of (update_option option_id payload) = use_update_option option_id payload
mutation_of (delete_option option_id) = use_delete_option option_id
mutation_of (set_item_translation item_id language payload) =
    use_set_item_translation item_id language payload
mutation_of (set_category_translation category_id language payload) =
    use_set_category_translation category_id language payload
mutation_of (place_qr_order token payload) = use_place_qr_order token payload
mutation_of (connect_integration provider payload) = use_connect_integration provider payload
mutation_of (disconnect_integration provider) = use_disconnect_integration provider
mutation_of (sync_integration_menu provider) = use_sync_integration_menu provider
mutation_of (provision_business payload) = use_provision_business payload
mutation_of (set_business_active business_id payload) = use_set_business_active business_id payload
mutation_of (set_platform_feature business_id feature payload) =
    use_set_platform_feature business_id feature payload
mutation_of (set_platform_toggle business_id key payload) =
    use_set_platform_toggle business_id key payload
mutation_of (provision_subscription business_id payload) =
    use_provision_subscription business_id payload
mutation_of (renew_subscription business_id payload) = use_renew_subscription business_id payload
mutation_of (suspend_subscription business_id) = use_suspend_subscription business_id
mutation_of (cancel_subscription business_id) = use_cancel_subscription business_id
mutation_of (set_platform_website business_id payload) =
    use_set_platform_website business_id payload
mutation_of (extract_menu_from_photos business_id form) =
    use_extract_menu_from_photos business_id form
mutation_of (publish_imported_menu business_id payload) =
    use_publish_imported_menu business_id payload
mutation_of (login payload) = use_login payload
mutation_of (logout refresh_token) = use_logout refresh_token
mutation_of (forgot_password payload) = use_forgot_password payload
mutation_of (reset_password payload) = use_reset_password payload
mutation_of (platform_login payload) = use_platform_login payload
mutation_of (platform_logout refresh_token) = use_platform_logout refresh_token
