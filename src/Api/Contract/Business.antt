-- ===== src/Api/Contract/Business.antt =====
-- The paths of frontend/src/types/api.ts about the business's account, staff, settings and reports.
use why_not_grace_pos.Prelude.{List, [], ◌∷◌}
use why_not_grace_pos.Api.Calls.{get, post, put, delete}
use why_not_grace_pos.Api.Paths.{Endpoint, fixed, any, v1, root}

abbrev pub health_paths : List Endpoint
health_paths =
    root (fixed "health" ∷ []) (get ∷ []) ∷ root (fixed "health" ∷ fixed "db" ∷ []) (get ∷ []) ∷ []

abbrev pub auth_paths : List Endpoint
auth_paths =
    v1 (fixed "auth" ∷ fixed "login" ∷ []) (post ∷ [])
    ∷ v1 (fixed "auth" ∷ fixed "refresh" ∷ []) (post ∷ [])
    ∷ v1 (fixed "auth" ∷ fixed "logout" ∷ []) (post ∷ [])
    ∷ v1 (fixed "auth" ∷ fixed "forgot-password" ∷ []) (post ∷ [])
    ∷ v1 (fixed "auth" ∷ fixed "reset-password" ∷ []) (post ∷ [])
    ∷ v1 (fixed "auth" ∷ fixed "me" ∷ []) (get ∷ [])
    ∷ []

abbrev pub user_paths : List Endpoint
user_paths = v1 (fixed "users" ∷ fixed "me" ∷ []) (get ∷ []) ∷ []

abbrev pub business_paths : List Endpoint
business_paths = v1 (fixed "businesses" ∷ fixed "me" ∷ []) (get ∷ put ∷ []) ∷ []

abbrev pub staff_paths : List Endpoint
staff_paths =
    v1 (fixed "staff" ∷ []) (get ∷ post ∷ [])
    ∷ v1 (fixed "staff" ∷ any "staff_id" ∷ []) (put ∷ [])
    ∷ v1 (fixed "staff" ∷ any "staff_id" ∷ fixed "reset-access" ∷ []) (post ∷ [])
    ∷ []

abbrev pub settings_paths : List Endpoint
settings_paths =
    v1 (fixed "settings" ∷ []) (get ∷ put ∷ [])
    ∷ v1 (fixed "settings" ∷ fixed "features" ∷ []) (get ∷ [])
    ∷ []

abbrev pub feature_flag_paths : List Endpoint
feature_flag_paths = v1 (fixed "feature-flags" ∷ fixed "features" ∷ []) (get ∷ []) ∷ []

abbrev pub dashboard_paths : List Endpoint
dashboard_paths = v1 (fixed "dashboard" ∷ []) (get ∷ []) ∷ []

abbrev pub audit_paths : List Endpoint
audit_paths = v1 (fixed "admin" ∷ fixed "audit-logs" ∷ []) (get ∷ []) ∷ []

abbrev pub subscription_paths : List Endpoint
subscription_paths = v1 (fixed "subscription" ∷ []) (get ∷ []) ∷ []

abbrev pub toggle_paths : List Endpoint
toggle_paths =
    v1 (fixed "settings" ∷ fixed "toggles" ∷ []) (get ∷ [])
    ∷ v1 (fixed "settings" ∷ fixed "toggles" ∷ any "key" ∷ []) (put ∷ delete ∷ [])
    ∷ v1 (fixed "settings" ∷ fixed "invoice-series" ∷ []) (get ∷ [])
    ∷ []

abbrev pub notification_paths : List Endpoint
notification_paths =
    v1 (fixed "notifications" ∷ []) (get ∷ [])
    ∷ v1 (fixed "notifications" ∷ any "notification_id" ∷ fixed "read" ∷ []) (post ∷ [])
    ∷ v1 (fixed "notifications" ∷ fixed "read-all" ∷ []) (post ∷ [])
    ∷ []

abbrev pub report_paths : List Endpoint
report_paths =
    v1 (fixed "reports" ∷ fixed "sales" ∷ []) (get ∷ [])
    ∷ v1 (fixed "reports" ∷ fixed "orders" ∷ []) (get ∷ [])
    ∷ v1 (fixed "reports" ∷ fixed "payments" ∷ []) (get ∷ [])
    ∷ v1 (fixed "reports" ∷ fixed "top-items" ∷ []) (get ∷ [])
    ∷ v1 (fixed "reports" ∷ fixed "categories" ∷ []) (get ∷ [])
    ∷ v1 (fixed "reports" ∷ fixed "channels" ∷ []) (get ∷ [])
    ∷ []
