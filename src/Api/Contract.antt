-- ===== src/Api/Contract.antt =====
-- All the paths of frontend/src/types/api.ts.
pub mod Business
pub mod Menus
pub mod Floor
pub mod Money
pub mod Outside
pub mod Platform
use why_not_grace_pos.Prelude.{List, [], ◌∷◌, ◌++◌}
use why_not_grace_pos.Api.Paths.{Endpoint}
use why_not_grace_pos.Api.Contract.Business.{
  health_paths, auth_paths, user_paths, business_paths, staff_paths, settings_paths,
  feature_flag_paths, dashboard_paths, audit_paths, subscription_paths, toggle_paths,
  notification_paths, report_paths,
}
use why_not_grace_pos.Api.Contract.Menus.{
  menu_paths, menu_part_paths, category_paths, pricing_paths,
}
use why_not_grace_pos.Api.Contract.Floor.{
  location_paths, table_paths, room_paths, qr_paths, order_paths, kot_paths, kitchen_paths,
  ticket_paths,
}
use why_not_grace_pos.Api.Contract.Money.{
  billing_paths, billing_mark_paths, payment_paths, charge_paths, shift_paths, receipt_paths,
  shift_print_paths,
}
use why_not_grace_pos.Api.Contract.Outside.{
  customer_paths, loyalty_paths, review_paths, website_paths, pickup_paths, delivery_paths,
  integration_paths, partner_channel_paths, channel_paths,
}
use why_not_grace_pos.Api.Contract.Platform.{
  platform_account_paths, platform_switch_paths, platform_site_paths,
}

-- Every path that the backend has for the client.
abbrev pub all_paths : List Endpoint
all_paths =
    health_paths ++ auth_paths ++ user_paths ++ business_paths ++ staff_paths ++ settings_paths
    ++ feature_flag_paths ++ dashboard_paths ++ audit_paths ++ subscription_paths ++ toggle_paths
    ++ notification_paths ++ report_paths ++ menu_paths ++ menu_part_paths ++ category_paths
    ++ pricing_paths ++ location_paths ++ table_paths ++ room_paths ++ qr_paths ++ order_paths
    ++ kot_paths ++ kitchen_paths ++ ticket_paths ++ billing_paths ++ billing_mark_paths
    ++ payment_paths ++ charge_paths ++ shift_paths ++ receipt_paths ++ shift_print_paths
    ++ customer_paths ++ loyalty_paths ++ review_paths ++ website_paths ++ pickup_paths
    ++ delivery_paths ++ integration_paths ++ partner_channel_paths ++ channel_paths
    ++ platform_account_paths ++ platform_switch_paths ++ platform_site_paths
