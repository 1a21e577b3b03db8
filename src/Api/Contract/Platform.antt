-- ===== src/Api/Contract/Platform.antt =====
-- The paths of frontend/src/types/api.ts about the platform's own staff.
use why_not_grace_pos.Prelude.{List, [], ◌∷◌}
use why_not_grace_pos.Api.Calls.{get, post, put}
use why_not_grace_pos.Api.Paths.{Endpoint, fixed, any, v1}

abbrev pub platform_account_paths : List Endpoint
platform_account_paths =
    v1 (fixed "platform" ∷ fixed "auth" ∷ fixed "login" ∷ []) (post ∷ [])
    ∷ v1 (fixed "platform" ∷ fixed "auth" ∷ fixed "refresh" ∷ []) (post ∷ [])
    ∷ v1 (fixed "platform" ∷ fixed "auth" ∷ fixed "logout" ∷ []) (post ∷ [])
    ∷ v1 (fixed "platform" ∷ fixed "auth" ∷ fixed "me" ∷ []) (get ∷ [])
    ∷ v1 (fixed "platform" ∷ fixed "businesses" ∷ []) (get ∷ post ∷ [])
    ∷ v1 (fixed "platform" ∷ fixed "businesses" ∷ any "business_id" ∷ []) (get ∷ [])
    ∷ v1 (fixed "platform" ∷ fixed "businesses" ∷ any "business_id" ∷ fixed "active" ∷ [])
        (put ∷ [])
    ∷ v1 (fixed "platform" ∷ fixed "businesses" ∷ any "business_id" ∷ fixed "features" ∷ [])
        (get ∷ [])
    ∷ []

abbrev pub platform_switch_paths : List Endpoint
platform_switch_paths =
    v1
      (fixed "platform"
        ∷ fixed "businesses"
        ∷ any "business_id"
        ∷ fixed "features"
        ∷ any "module"
        ∷ [])
      (put ∷ [])
    ∷ v1 (fixed "platform" ∷ fixed "businesses" ∷ any "business_id" ∷ fixed "toggles" ∷ [])
        (get ∷ [])
    ∷ v1
        (fixed "platform"
          ∷ fixed "businesses"
          ∷ any "business_id"
          ∷ fixed "toggles"
          ∷ any "key"
          ∷ [])
        (put ∷ [])
    ∷ v1 (fixed "platform" ∷ fixed "businesses" ∷ any "business_id" ∷ fixed "subscription" ∷ [])
        (get ∷ [])
    ∷ v1
        (fixed "platform"
          ∷ fixed "businesses"
          ∷ any "business_id"
          ∷ fixed "subscription"
          ∷ fixed "provision"
          ∷ [])
        (post ∷ [])
    ∷ v1
        (fixed "platform"
          ∷ fixed "businesses"
          ∷ any "business_id"
          ∷ fixed "subscription"
          ∷ fixed "renew"
          ∷ [])
        (post ∷ [])
    ∷ v1
        (fixed "platform"
          ∷ fixed "businesses"
          ∷ any "business_id"
          ∷ fixed "subscription"
          ∷ fixed "suspend"
          ∷ [])
        (post ∷ [])
    ∷ []

abbrev pub platform_site_paths : List Endpoint
platform_site_paths =
    v1
      (fixed "platform"
        ∷ fixed "businesses"
        ∷ any "business_id"
        ∷ fixed "subscription"
        ∷ fixed "cancel"
        ∷ [])
      (post ∷ [])
    ∷ v1 (fixed "platform" ∷ fixed "businesses" ∷ any "business_id" ∷ fixed "website" ∷ [])
        (get ∷ put ∷ [])
    ∷ v1
        (fixed "platform"
          ∷ fixed "businesses"
          ∷ any "business_id"
          ∷ fixed "menu-import"
          ∷ fixed "extract"
          ∷ [])
        (post ∷ [])
    ∷ v1
        (fixed "platform"
          ∷ fixed "businesses"
          ∷ any "business_id"
          ∷ fixed "menu-import"
          ∷ fixed "publish"
          ∷ [])
        (post ∷ [])
    ∷ []
