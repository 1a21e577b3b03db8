-- ===== src/Qr.antt =====
-- Ordering from a guest's own phone: the session that a scanned code opens
-- (frontend/src/stores/qrSessionStore.ts and frontend/src/features/qr/useQrSession.ts), and the cart
-- sheet of frontend/src/features/qr/components/QrCartSheet.tsx over frontend/src/stores/qrCartStore.ts,
-- which repeats the lines of the counter's cart. Qr/Item has the guest's menu and item dialog. Dates are the browser's: the time that a text stands
-- for is an argument, with none for NaN, and so is the time of each check.
pub mod Session
pub mod Ordering
pub mod Item
mod Tests
use why_not_grace_pos.Prelude.{
  String, Bool, true, false, not, ◌&&◌, Option, none, some, List, [], ◌∷◌, ◌++◌, map, ◌==◌, Number,
  is_truthy, is_set, or_none, trim, if◌then◌else◌,
}
use why_not_grace_pos.Cart.{CartLine, cart_estimated_subtotal}
use why_not_grace_pos.Cart.Lines.{LineAction, act}

pub record QrScanResponse : Type 0 where
  pub session_token : String
  pub business_id : String
  pub business_name : String
  pub location_id : String
  pub location_name : String
  pub location_type : String
  pub expires_at : String

pub record QrSessionStore : Type 0 where
  pub session_token : Option String
  pub business_slug : Option String
  pub business_id : Option String
  pub business_name : Option String
  pub location_id : Option String
  pub location_name : Option String
  pub location_type : Option String
  pub expires_at : Option String

abbrev pub no_session : QrSessionStore
no_session = record {
  session_token = none;
  business_slug = none;
  business_id = none;
  business_name = none;
  location_id = none;
  location_name = none;
  location_type = none;
  expires_at = none;
}

unfoldable pub set_qr_session : String → QrScanResponse → QrSessionStore → QrSessionStore
set_qr_session slug scan s = record {
  session_token = some scan.session_token;
  business_slug = some slug;
  business_id = some scan.business_id;
  business_name = some scan.business_name;
  location_id = some scan.location_id;
  location_name = some scan.location_name;
  location_type = some scan.location_type;
  expires_at = some scan.expires_at;
}

unfoldable pub clear_qr_session : QrSessionStore → QrSessionStore
clear_qr_session s = no_session

-- `a === b` where `a` may be null.
abbrev pub is_same : Option String → String → Bool
is_same none t = false
is_same (some s) t = s == t

pub data QrSessionStatus : Type 0 where
  loading ready error : QrSessionStatus

-- The route's parameters: what the printed code links to.
pub record QrRoute : Type 0 where
  pub business_slug : String
  pub location_id : String
  pub code : Option String

-- `scan` is the call that is under way and whose controller is not aborted, and `scans` has all
-- the calls that were made, oldest first.
pub record QrBootstrap : Type 0 where
  pub store : QrSessionStore
  pub status : QrSessionStatus
  pub error_message : Option String
  pub scan : Option QrRoute
  pub scans : List QrRoute

abbrev pub opened : QrSessionStore → QrBootstrap
opened s = record { store = s; status = loading; error_message = none; scan = none; scans = [] }

module _ {ℓ} {N : Type ℓ} ⦃n : Number N⦄ (time_of : String → Option N) where
  -- A comparison with NaN is false.
  unfoldable pub is_qr_session_expired : N → Option String → Bool
  is_qr_session_expired now none = true
  is_qr_session_expired now (some text) =
      if not (is_truthy text)
      then true
      else elim (time_of text) [ none ↦ false | some t ↦ n.le t now ]

  unfoldable pub has_valid_existing : N → QrRoute → QrSessionStore → Bool
  unfolding is_qr_session_expired
  has_valid_existing now route s =
      is_set s.session_token
      && is_same s.business_slug route.business_slug
      && is_same s.location_id route.location_id
      && not (is_qr_session_expired now s.expires_at)

  -- The effect, once React has run the cleanup of the run before: it aborts that run's call.
  unfoldable pub scan_effect : N → QrRoute → QrBootstrap → QrBootstrap
  unfolding has_valid_existing
  scan_effect now route b =
      if has_valid_existing now route b.store
      then record b { status = ready; scan = none }
      else (if is_set route.code
          then record b {
            status = loading;
            error_message = none;
            scan = some route;
            scans = b.scans ++ (route ∷ []);
          }
          else record b { status = error; error_message = none; scan = none })

-- The rest of the call, if it gave a session, and if it failed and was not aborted.
unfoldable pub scan_gives : QrScanResponse → QrBootstrap → QrBootstrap
unfolding set_qr_session
scan_gives response b = elim b.scan [
  | none ↦ b
  | some route ↦ record b {
    store = set_qr_session route.business_slug response b.store;
    status = ready;
    scan = none;
  }
]

unfoldable pub scan_fails : String → QrBootstrap → QrBootstrap
scan_fails message b = elim b.scan [
  | none ↦ b
  | some route ↦ record b { status = error; error_message = some message; scan = none }
]

-- The effect runs for a route at a time, or its call is answered.
pub data QrEvent {ℓ} (N : Type ℓ) : Type ℓ where
  shows : N → QrRoute → QrEvent N
  gives : QrScanResponse → QrEvent N
  fails : String → QrEvent N

module _ {ℓ} {N : Type ℓ} ⦃n : Number N⦄ (time_of : String → Option N) where
  unfoldable pub qr_step : QrBootstrap → QrEvent N → QrBootstrap
  unfolding scan_effect scan_gives scan_fails
  qr_step b (shows now route) = scan_effect time_of now route b
  qr_step b (gives response) = scan_gives response b
  qr_step b (fails message) = scan_fails message b

  unfoldable pub qr_run : QrBootstrap → List (QrEvent N) → QrBootstrap
  qr_run b [] = b
  qr_run b (e ∷ es) = qr_run (qr_step b e) es

pub record QrCartItem {ℓ} (N : Type ℓ) : Type ℓ where
  pub menu_item_id : String
  pub variant_id : Option String
  pub quantity : N
  pub option_ids : List String
  pub special_instructions : Option String

pub record QrOrderCreateRequest {ℓ} (N : Type ℓ) : Type ℓ where
  pub items : List (QrCartItem N)
  pub notes : Option String

-- `posted` has the session tokens and the requests that were sent, oldest first.
pub record QrSheet {ℓ} (N : Type ℓ) : Type ℓ where
  pub lines : List (CartLine N)
  pub notes : String
  pub error : Option String
  pub posted : List (String × QrOrderCreateRequest N)

module _ {ℓ} {N : Type ℓ} ⦃n : Number N⦄ where
  -- The actions of the guest's cart are those of the counter's.
  unfoldable pub qr_cart_act : LineAction N → List (CartLine N) → List (CartLine N)
  unfolding act
  qr_cart_act = act

  unfoldable pub qr_cart_estimated_subtotal : List (CartLine N) → N
  unfolding cart_estimated_subtotal
  qr_cart_estimated_subtotal lines = cart_estimated_subtotal lines

module _ {ℓ} {N : Type ℓ} where
  unfoldable pub qr_cart_item : CartLine N → QrCartItem N
  qr_cart_item l = record {
    menu_item_id = l.menu_item_id;
    variant_id = l.variant_id;
    quantity = l.quantity;
    option_ids = map (λ o. o.id) l.options;
    special_instructions = l.special_instructions;
  }

  unfoldable pub qr_order_request : QrSheet N → QrOrderCreateRequest N
  unfolding qr_cart_item
  qr_order_request s = record { items = map qr_cart_item s.lines; notes = or_none (trim s.notes) }

  abbrev pub has_no_lines : List (CartLine N) → Bool
  has_no_lines [] = true
  has_no_lines (_ ∷ _) = false

  -- `handlePlaceOrder` of the sheet up to its `await`, and the rest of it for each answer.
  unfoldable pub place_qr_order : String → QrSheet N → QrSheet N
  unfolding qr_order_request
  place_qr_order token s =
      if has_no_lines s.lines
      then s
      else record s { error = none; posted = s.posted ++ ((token, qr_order_request s) ∷ []) }

  unfoldable pub qr_order_placed : QrSheet N → QrSheet N
  qr_order_placed s = record s { lines = []; notes = "" }

  unfoldable pub qr_order_failed : String → QrSheet N → QrSheet N
  qr_order_failed message s = record s { error = some message }
