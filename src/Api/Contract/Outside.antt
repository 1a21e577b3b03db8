-- ===== src/Api/Contract/Outside.antt =====
-- The paths of frontend/src/types/api.ts about guests, customers and partners.
use why_not_grace_pos.Prelude.{List, [], ◌∷◌}
use why_not_grace_pos.Api.Calls.{get, post, put, delete}
use why_not_grace_pos.Api.Paths.{Endpoint, fixed, any, v1}

abbrev pub customer_paths : List Endpoint
customer_paths =
    v1 (fixed "customers" ∷ []) (get ∷ post ∷ [])
    ∷ v1 (fixed "customers" ∷ any "customer_id" ∷ []) (put ∷ [])
    ∷ []

abbrev pub loyalty_paths : List Endpoint
loyalty_paths =
    v1 (fixed "loyalty" ∷ fixed "rules" ∷ []) (get ∷ post ∷ [])
    ∷ v1 (fixed "loyalty" ∷ fixed "rules" ∷ any "rule_id" ∷ []) (put ∷ [])
    ∷ v1 (fixed "loyalty" ∷ fixed "accounts" ∷ any "customer_id" ∷ []) (get ∷ [])
    ∷ v1 (fixed "loyalty" ∷ fixed "accounts" ∷ any "customer_id" ∷ fixed "rewards" ∷ []) (get ∷ [])
    ∷ v1 (fixed "loyalty" ∷ fixed "rewards" ∷ any "reward_id" ∷ fixed "redeem" ∷ []) (post ∷ [])
    ∷ []

abbrev pub review_paths : List Endpoint
review_paths =
    v1 (fixed "reviews" ∷ []) (get ∷ [])
    ∷ v1 (fixed "reviews" ∷ fixed "public" ∷ any "business_slug" ∷ []) (post ∷ [])
    ∷ []

abbrev pub website_paths : List Endpoint
website_paths =
    v1 (fixed "website" ∷ fixed "config" ∷ []) (get ∷ put ∷ [])
    ∷ v1 (fixed "website" ∷ fixed "public" ∷ any "business_slug" ∷ []) (get ∷ [])
    ∷ v1 (fixed "website" ∷ fixed "public" ∷ any "business_slug" ∷ fixed "menu" ∷ []) (get ∷ [])
    ∷ []

abbrev pub pickup_paths : List Endpoint
pickup_paths =
    v1 (fixed "pickup" ∷ any "business_slug" ∷ fixed "checkout" ∷ []) (post ∷ [])
    ∷ v1 (fixed "pickup" ∷ any "business_slug" ∷ fixed "verify-payment" ∷ []) (post ∷ [])
    ∷ v1 (fixed "pickup" ∷ any "business_slug" ∷ fixed "orders" ∷ any "order_id" ∷ []) (get ∷ [])
    ∷ []

abbrev pub delivery_paths : List Endpoint
delivery_paths =
    v1 (fixed "delivery" ∷ any "business_slug" ∷ fixed "checkout" ∷ []) (post ∷ [])
    ∷ v1 (fixed "delivery" ∷ any "business_slug" ∷ fixed "verify-payment" ∷ []) (post ∷ [])
    ∷ v1 (fixed "delivery" ∷ any "business_slug" ∷ fixed "orders" ∷ any "order_id" ∷ []) (get ∷ [])
    ∷ v1 (fixed "delivery" ∷ fixed "orders" ∷ []) (get ∷ [])
    ∷ v1 (fixed "delivery" ∷ fixed "orders" ∷ any "order_id" ∷ fixed "status" ∷ []) (put ∷ [])
    ∷ []

abbrev pub integration_paths : List Endpoint
integration_paths =
    v1 (fixed "integrations" ∷ []) (get ∷ [])
    ∷ v1 (fixed "integrations" ∷ any "provider" ∷ fixed "credentials" ∷ []) (put ∷ delete ∷ [])
    ∷ v1 (fixed "integrations" ∷ any "provider" ∷ fixed "menu-sync" ∷ []) (post ∷ [])
    ∷ v1 (fixed "integrations" ∷ fixed "webhooks" ∷ fixed "zomato" ∷ []) (post ∷ [])
    ∷ v1 (fixed "integrations" ∷ fixed "webhooks" ∷ fixed "swiggy" ∷ []) (post ∷ [])
    ∷ []

abbrev pub partner_channel_paths : List Endpoint
partner_channel_paths =
    v1 (fixed "partner-channels" ∷ []) (get ∷ post ∷ [])
    ∷ v1 (fixed "partner-channels" ∷ any "channel_id" ∷ fixed "rotate" ∷ []) (post ∷ [])
    ∷ v1 (fixed "partner-channels" ∷ any "channel_id" ∷ []) (delete ∷ [])
    ∷ v1 (fixed "partner-channels" ∷ any "channel_id" ∷ fixed "menu-map" ∷ []) (get ∷ put ∷ [])
    ∷ v1 (fixed "partner-channels" ∷ any "channel_id" ∷ fixed "menu-map" ∷ any "mapping_id" ∷ [])
        (delete ∷ [])
    ∷ []

abbrev pub channel_paths : List Endpoint
channel_paths = v1 (fixed "channels" ∷ fixed "orders" ∷ []) (post ∷ []) ∷ []
