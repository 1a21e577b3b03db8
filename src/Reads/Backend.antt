-- ===== src/Reads/Backend.antt =====
-- Who may read what: the role sets of backend/app/core/permissions.py, and for each route of
-- backend/app/api that a page of the staff reads, the roles and the feature that it asks for. A route
-- that asks for neither is open to every role.
use why_not_grace_pos.Prelude.{Bool, true, false, ◌&&◌, ◌||◌}
use why_not_grace_pos.Access.{UserRole, owner, manager, FeatureModule, hotel_rooms, loyalty}
use why_not_grace_pos.Progress.Backend.{role_operational, role_service, role_billing}
use why_not_grace_pos.Queries.Registry.{Query}

abbrev pub role_full_access : UserRole → Bool
role_full_access owner = true
role_full_access _ = false

abbrev pub role_kitchen : UserRole → Bool
role_kitchen owner = true
role_kitchen manager = true
role_kitchen UserRole.kitchen = true
role_kitchen _ = false

abbrev pub role_delivery : UserRole → Bool
role_delivery owner = true
role_delivery manager = true
role_delivery UserRole.delivery = true
role_delivery _ = false

-- `ROLE_ANY_STAFF`.
abbrev pub role_any_staff : UserRole → Bool
role_any_staff r = true

-- Orders, bills and the drawer.
unfoldable pub staff_order_roles : UserRole → Bool
unfolding role_billing role_service
staff_order_roles r = role_billing r || role_service r

unfoldable pub list_orders : UserRole → Bool
unfolding staff_order_roles
list_orders r = staff_order_roles r

unfoldable pub get_order : UserRole → Bool
unfolding staff_order_roles
get_order r = staff_order_roles r

unfoldable pub unbilled_orders : UserRole → Bool
unfolding role_billing
unbilled_orders r = role_billing r

unfoldable pub get_bill : UserRole → Bool
unfolding role_billing
get_bill r = role_billing r

unfoldable pub current_shift : UserRole → Bool
unfolding role_billing
current_shift r = role_billing r

unfoldable pub shift_report : UserRole → Bool
unfolding role_billing
shift_report r = role_billing r

unfoldable pub list_shifts : UserRole → Bool
unfolding role_operational
list_shifts r = role_operational r

unfoldable pub list_kots : UserRole → Bool
list_kots r = role_kitchen r

unfoldable pub kitchen_queue : UserRole → Bool
kitchen_queue r = role_kitchen r

unfoldable pub ready_for_service : UserRole → Bool
unfolding role_service
ready_for_service r = role_service r

unfoldable pub list_delivery_orders : UserRole → (FeatureModule → Bool) → Bool
list_delivery_orders r enabled = role_delivery r && enabled FeatureModule.delivery

unfoldable pub list_rooms : UserRole → (FeatureModule → Bool) → Bool
list_rooms r enabled = enabled hotel_rooms

unfoldable pub loyalty_rules : UserRole → (FeatureModule → Bool) → Bool
unfolding role_operational
loyalty_rules r enabled = role_operational r && enabled loyalty

unfoldable pub loyalty_account : UserRole → (FeatureModule → Bool) → Bool
unfolding role_operational
loyalty_account r enabled = role_operational r && enabled loyalty

unfoldable pub loyalty_rewards : UserRole → (FeatureModule → Bool) → Bool
unfolding role_operational
loyalty_rewards r enabled = role_operational r && enabled loyalty

unfoldable pub list_staff : UserRole → Bool
unfolding role_operational
list_staff r = role_operational r

unfoldable pub list_customers : UserRole → Bool
list_customers r = role_any_staff r

unfoldable pub list_notifications : UserRole → Bool
list_notifications r = role_any_staff r

unfoldable pub get_dashboard : UserRole → Bool
unfolding role_operational
get_dashboard r = role_operational r

unfoldable pub read_reports : UserRole → Bool
unfolding role_operational
read_reports r = role_operational r

unfoldable pub get_features : UserRole → Bool
get_features r = role_any_staff r

unfoldable pub list_bands : UserRole → Bool
list_bands r = role_full_access r

unfoldable pub preview : UserRole → Bool
preview r = role_full_access r

unfoldable pub list_toggles : UserRole → Bool
list_toggles r = role_any_staff r

unfoldable pub invoice_series : UserRole → Bool
invoice_series r = role_full_access r

unfoldable pub list_integrations : UserRole → Bool
list_integrations r = role_full_access r

unfoldable pub get_subscription : UserRole → Bool
get_subscription r = role_full_access r

-- The answer to a query of the hooks. The remaining routes are open to every role, and
-- the queries of guests and of the platform are none of the staff's.
unfoldable pub may_read : UserRole → (FeatureModule → Bool) → Query → Bool
unfolding list_orders get_order unbilled_orders get_bill current_shift shift_report list_shifts
    list_kots kitchen_queue ready_for_service list_delivery_orders list_rooms loyalty_rules
    loyalty_account loyalty_rewards list_staff list_customers list_notifications get_dashboard
    read_reports get_features list_bands preview list_toggles invoice_series list_integrations
    get_subscription
may_read r enabled (Query.orders p) = list_orders r
may_read r enabled (Query.order id) = get_order r
may_read r enabled Query.unbilled_orders = unbilled_orders r
may_read r enabled (Query.bill id) = get_bill r
may_read r enabled Query.current_shift = current_shift r
may_read r enabled (Query.shift_report id) = shift_report r
may_read r enabled Query.shifts = list_shifts r
may_read r enabled (Query.kots p) = list_kots r
may_read r enabled Query.kitchen_queue = kitchen_queue r
may_read r enabled Query.ready_for_service = ready_for_service r
may_read r enabled Query.delivery_orders = list_delivery_orders r enabled
may_read r enabled Query.rooms = list_rooms r enabled
may_read r enabled Query.loyalty_rules = loyalty_rules r enabled
may_read r enabled (Query.loyalty_account id) = loyalty_account r enabled
may_read r enabled (Query.loyalty_rewards id) = loyalty_rewards r enabled
may_read r enabled Query.staff = list_staff r
may_read r enabled Query.customers = list_customers r
may_read r enabled Query.notifications = list_notifications r
may_read r enabled (Query.dashboard role) = get_dashboard r
may_read r enabled (Query.sales_report p) = read_reports r
may_read r enabled (Query.orders_report p) = read_reports r
may_read r enabled (Query.payments_report p) = read_reports r
may_read r enabled (Query.top_items_report p) = read_reports r
may_read r enabled (Query.categories_report p) = read_reports r
may_read r enabled (Query.channels_report p) = read_reports r
may_read r enabled Query.feature_flags = get_features r
may_read r enabled Query.charge_bands = list_bands r
may_read r enabled (Query.charge_preview a c) = preview r
may_read r enabled Query.toggles = list_toggles r
may_read r enabled Query.invoice_series = invoice_series r
may_read r enabled Query.integrations = list_integrations r
may_read r enabled Query.subscription = get_subscription r
may_read r enabled (Query.audit_logs q) = role_full_access r
may_read r enabled (Query.qr_menu b l) = false
may_read r enabled (Query.qr_order_status b id status) = false
may_read r enabled (Query.public_website b) = false
may_read r enabled (Query.public_website_menu b s) = false
may_read r enabled Query.platform_businesses = false
may_read r enabled (Query.platform_business id) = false
may_read r enabled (Query.platform_features id) = false
may_read r enabled (Query.platform_toggles id) = false
may_read r enabled (Query.platform_subscription id) = false
may_read r enabled (Query.platform_website id) = false
may_read r enabled _ = true
