-- ===== src/Api/Contract/Floor.antt =====
-- The paths of frontend/src/types/api.ts about the tables, the orders and the kitchen.
use why_not_grace_pos.Prelude.{List, [], ◌∷◌}
use why_not_grace_pos.Api.Calls.{get, post, put, delete}
use why_not_grace_pos.Api.Paths.{Endpoint, fixed, any, v1}

abbrev pub location_paths : List Endpoint
location_paths =
    v1 (fixed "locations" ∷ []) (get ∷ post ∷ [])
    ∷ v1 (fixed "locations" ∷ any "location_id" ∷ []) (put ∷ delete ∷ [])
    ∷ []

abbrev pub table_paths : List Endpoint
table_paths =
    v1 (fixed "tables" ∷ []) (get ∷ post ∷ [])
    ∷ v1 (fixed "tables" ∷ any "table_id" ∷ []) (put ∷ [])
    ∷ []

abbrev pub room_paths : List Endpoint
room_paths =
    v1 (fixed "rooms" ∷ []) (get ∷ post ∷ [])
    ∷ v1 (fixed "rooms" ∷ any "room_id" ∷ []) (put ∷ [])
    ∷ []

abbrev pub qr_paths : List Endpoint
qr_paths =
    v1 (fixed "qr" ∷ fixed "scan" ∷ any "business_slug" ∷ any "location_id" ∷ []) (get ∷ [])
    ∷ v1 (fixed "qr" ∷ fixed "menu" ∷ []) (get ∷ [])
    ∷ v1 (fixed "qr" ∷ fixed "orders" ∷ []) (post ∷ [])
    ∷ v1 (fixed "qr" ∷ fixed "orders" ∷ any "order_id" ∷ []) (get ∷ [])
    ∷ []

abbrev pub order_paths : List Endpoint
order_paths =
    v1 (fixed "orders" ∷ []) (get ∷ post ∷ [])
    ∷ v1 (fixed "orders" ∷ any "order_id" ∷ []) (get ∷ [])
    ∷ v1 (fixed "orders" ∷ any "order_id" ∷ fixed "cancel" ∷ []) (post ∷ [])
    ∷ v1 (fixed "orders" ∷ fixed "sessions" ∷ any "session_id" ∷ fixed "transfer" ∷ []) (post ∷ [])
    ∷ v1 (fixed "orders" ∷ fixed "sessions" ∷ any "session_id" ∷ fixed "merge" ∷ []) (post ∷ [])
    ∷ []

abbrev pub kot_paths : List Endpoint
kot_paths =
    v1 (fixed "kot" ∷ []) (get ∷ [])
    ∷ v1 (fixed "kot" ∷ any "kot_id" ∷ []) (get ∷ [])
    ∷ v1 (fixed "kot" ∷ any "kot_id" ∷ fixed "status" ∷ []) (put ∷ [])
    ∷ []

abbrev pub kitchen_paths : List Endpoint
kitchen_paths =
    v1 (fixed "kitchen" ∷ fixed "queue" ∷ []) (get ∷ [])
    ∷ v1 (fixed "kitchen" ∷ fixed "service" ∷ fixed "ready" ∷ []) (get ∷ [])
    ∷ v1 (fixed "kitchen" ∷ fixed "service" ∷ any "kot_id" ∷ fixed "serve" ∷ []) (post ∷ [])
    ∷ []

abbrev pub ticket_paths : List Endpoint
ticket_paths =
    v1 (fixed "kot" ∷ any "kot_id" ∷ fixed "ticket" ∷ []) (get ∷ [])
    ∷ v1 (fixed "kot" ∷ any "kot_id" ∷ fixed "stations" ∷ []) (get ∷ [])
    ∷ []
