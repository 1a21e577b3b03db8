-- ===== src/Api/Contract/Money.antt =====
-- The paths of frontend/src/types/api.ts about bills, payments, charges and shifts.
use why_not_grace_pos.Prelude.{List, [], ◌∷◌}
use why_not_grace_pos.Api.Calls.{get, post, put, delete}
use why_not_grace_pos.Api.Paths.{Endpoint, fixed, any, v1}

abbrev pub billing_paths : List Endpoint
billing_paths =
    v1 (fixed "billing" ∷ fixed "generate" ∷ []) (post ∷ [])
    ∷ v1 (fixed "billing" ∷ fixed "unbilled-orders" ∷ []) (get ∷ [])
    ∷ v1 (fixed "billing" ∷ any "bill_id" ∷ []) (get ∷ [])
    ∷ v1 (fixed "billing" ∷ any "bill_id" ∷ fixed "discount" ∷ []) (post ∷ [])
    ∷ v1 (fixed "billing" ∷ any "bill_id" ∷ fixed "void" ∷ []) (post ∷ [])
    ∷ v1 (fixed "billing" ∷ any "bill_id" ∷ fixed "items" ∷ any "item_id" ∷ fixed "void" ∷ [])
        (post ∷ [])
    ∷ v1 (fixed "billing" ∷ any "bill_id" ∷ fixed "items" ∷ any "item_id" ∷ fixed "comp" ∷ [])
        (post ∷ [])
    ∷ []

abbrev pub billing_mark_paths : List Endpoint
billing_mark_paths =
    v1 (fixed "billing" ∷ any "bill_id" ∷ fixed "items" ∷ any "item_id" ∷ fixed "uncomp" ∷ [])
      (post ∷ [])
    ∷ v1 (fixed "billing" ∷ any "bill_id" ∷ fixed "no-charge" ∷ []) (post ∷ [])
    ∷ v1 (fixed "billing" ∷ any "bill_id" ∷ fixed "print" ∷ []) (post ∷ [])
    ∷ []

abbrev pub payment_paths : List Endpoint
payment_paths =
    v1 (fixed "payments" ∷ fixed "cash" ∷ []) (post ∷ [])
    ∷ v1 (fixed "payments" ∷ fixed "razorpay" ∷ fixed "order" ∷ []) (post ∷ [])
    ∷ v1 (fixed "payments" ∷ fixed "razorpay" ∷ fixed "verify" ∷ []) (post ∷ [])
    ∷ v1 (fixed "payments" ∷ fixed "webhooks" ∷ fixed "razorpay" ∷ []) (post ∷ [])
    ∷ v1 (fixed "payments" ∷ fixed "webhooks" ∷ fixed "razorpay" ∷ any "business_id" ∷ [])
        (post ∷ [])
    ∷ v1 (fixed "payments" ∷ fixed "refund" ∷ []) (post ∷ [])
    ∷ []

abbrev pub charge_paths : List Endpoint
charge_paths =
    v1 (fixed "charges" ∷ fixed "bands" ∷ []) (get ∷ post ∷ [])
    ∷ v1 (fixed "charges" ∷ fixed "bands" ∷ any "band_id" ∷ []) (put ∷ delete ∷ [])
    ∷ v1 (fixed "charges" ∷ fixed "preview" ∷ []) (post ∷ [])
    ∷ []

abbrev pub shift_paths : List Endpoint
shift_paths =
    v1 (fixed "shifts" ∷ fixed "current" ∷ []) (get ∷ [])
    ∷ v1 (fixed "shifts" ∷ []) (get ∷ post ∷ [])
    ∷ v1 (fixed "shifts" ∷ any "shift_id" ∷ fixed "close" ∷ []) (post ∷ [])
    ∷ v1 (fixed "shifts" ∷ any "shift_id" ∷ fixed "report" ∷ []) (get ∷ [])
    ∷ []

abbrev pub receipt_paths : List Endpoint
receipt_paths =
    v1 (fixed "billing" ∷ any "bill_id" ∷ fixed "receipt" ∷ []) (get ∷ [])
    ∷ v1 (fixed "billing" ∷ any "bill_id" ∷ fixed "print-receipt" ∷ []) (post ∷ [])
    ∷ []

abbrev pub shift_print_paths : List Endpoint
shift_print_paths =
    v1 (fixed "shifts" ∷ any "shift_id" ∷ fixed "report" ∷ fixed "print" ∷ []) (get ∷ []) ∷ []
