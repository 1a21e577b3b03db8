-- ===== src/Api/Contract/Menus.antt =====
-- The paths of frontend/src/types/api.ts about the menu and its prices.
use why_not_grace_pos.Prelude.{List, [], ◌∷◌}
use why_not_grace_pos.Api.Calls.{get, post, put, delete}
use why_not_grace_pos.Api.Paths.{Endpoint, fixed, any, v1}

abbrev pub menu_paths : List Endpoint
menu_paths =
    v1 (fixed "menu" ∷ fixed "items" ∷ []) (get ∷ post ∷ [])
    ∷ v1 (fixed "menu" ∷ fixed "items" ∷ any "item_id" ∷ []) (get ∷ put ∷ delete ∷ [])
    ∷ v1 (fixed "menu" ∷ fixed "items" ∷ any "item_id" ∷ fixed "translations" ∷ []) (get ∷ [])
    ∷ v1 (fixed "menu" ∷ fixed "items" ∷ any "item_id" ∷ fixed "translations" ∷ any "language" ∷ [])
        (put ∷ [])
    ∷ v1 (fixed "menu" ∷ fixed "items" ∷ any "item_id" ∷ fixed "variants" ∷ []) (post ∷ [])
    ∷ v1 (fixed "menu" ∷ fixed "items" ∷ any "item_id" ∷ fixed "option-groups" ∷ []) (post ∷ [])
    ∷ v1 (fixed "menu" ∷ fixed "option-groups" ∷ any "group_id" ∷ fixed "options" ∷ []) (post ∷ [])
    ∷ v1 (fixed "menu" ∷ fixed "variants" ∷ any "variant_id" ∷ []) (put ∷ delete ∷ [])
    ∷ []

abbrev pub menu_part_paths : List Endpoint
menu_part_paths =
    v1 (fixed "menu" ∷ fixed "option-groups" ∷ any "group_id" ∷ []) (put ∷ delete ∷ [])
    ∷ v1 (fixed "menu" ∷ fixed "options" ∷ any "option_id" ∷ []) (put ∷ delete ∷ [])
    ∷ []

abbrev pub category_paths : List Endpoint
category_paths =
    v1 (fixed "categories" ∷ []) (get ∷ post ∷ [])
    ∷ v1 (fixed "categories" ∷ any "category_id" ∷ []) (put ∷ delete ∷ [])
    ∷ v1 (fixed "categories" ∷ any "category_id" ∷ fixed "translations" ∷ []) (get ∷ [])
    ∷ v1 (fixed "categories" ∷ any "category_id" ∷ fixed "translations" ∷ any "language" ∷ [])
        (put ∷ [])
    ∷ []

abbrev pub pricing_paths : List Endpoint
pricing_paths =
    v1 (fixed "pricing" ∷ fixed "rules" ∷ []) (get ∷ post ∷ [])
    ∷ v1 (fixed "pricing" ∷ fixed "rules" ∷ any "rule_id" ∷ []) (put ∷ delete ∷ [])
    ∷ []
