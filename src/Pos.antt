-- ===== src/Pos.antt =====
-- Building and placing an order at the counter: the rest of frontend/src/stores/cartStore.ts, and
-- frontend/src/features/pos/components/CartPanel.tsx, and handleSelectItem of
-- frontend/src/features/pos/PosPage.tsx. The order's number and what the backend does
-- with it are left out; an event answers the request that was posted.
pub mod Placing
mod Tests
use why_not_grace_pos.Prelude.{
  ℕ, ◌<◌, String, Bool, true, false, not, ◌&&◌, ◌||◌, Option, none, some, List, [], ◌∷◌, ◌++◌, map,
  ◌==◌, Number, keep, is_truthy, is_set, or_none, trim, text_length, leb, if◌then◌else◌,
}
use why_not_grace_pos.Cart.{CartLine, LineBody, add_line, remove_line, set_quantity}
use why_not_grace_pos.Cart.Select.{select_simple}
use why_not_grace_pos.Menu.{MenuItemOut}

-- `OrderContext`, the part of `OrderSource` that the counter uses.
pub data OrderContext : Type 0 where
  dine_in room_service pickup delivery : OrderContext

pub record OrderItemCreate {ℓ} (N : Type ℓ) : Type ℓ where
  pub menu_item_id : String
  pub variant_id : Option String
  pub quantity : N
  pub option_ids : List String
  pub special_instructions : Option String

pub record OrderCreateRequest {ℓ} (N : Type ℓ) : Type ℓ where
  pub location_id : Option String
  pub source : OrderContext
  pub pricing_context : OrderContext
  pub delivery_address : Option String
  pub notes : Option String
  pub customer_id : Option String
  pub items : List (OrderItemCreate N)

pub record CartState {ℓ} (N : Type ℓ) : Type ℓ where
  pub order_context : OrderContext
  pub table_id : Option String
  pub table_name : Option String
  pub delivery_address : String
  pub customer_id : Option String
  pub customer_label : Option String
  pub lines : List (CartLine N)

module _ {ℓ} {N : Type ℓ} where
  abbrev pub empty_cart : CartState N
  empty_cart = record {
    order_context = dine_in;
    table_id = none;
    table_name = none;
    delivery_address = "";
    customer_id = none;
    customer_label = none;
    lines = [];
  }

  unfoldable pub set_order_context : OrderContext → CartState N → CartState N
  set_order_context context s = record s {
    order_context = context;
    table_id = none;
    table_name = none;
  }

  unfoldable pub set_table : String → String → CartState N → CartState N
  set_table id name s = record s { table_id = some id; table_name = some name }

  unfoldable pub clear_table : CartState N → CartState N
  clear_table s = record s { table_id = none; table_name = none }

  unfoldable pub set_delivery_address : String → CartState N → CartState N
  set_delivery_address address s = record s { delivery_address = address }

  unfoldable pub set_customer : String → String → CartState N → CartState N
  set_customer id label s = record s { customer_id = some id; customer_label = some label }

  unfoldable pub clear_customer : CartState N → CartState N
  clear_customer s = record s { customer_id = none; customer_label = none }

  unfoldable pub clear_cart : CartState N → CartState N
  clear_cart s = record s {
    lines = [];
    customer_id = none;
    customer_label = none;
    delivery_address = "";
  }

-- Which kinds of order the panel offers.
unfoldable pub shows_tab : Bool → Bool → Bool → OrderContext → Bool
shows_tab hotel_rooms pickups deliveries dine_in = true
shows_tab hotel_rooms pickups deliveries room_service = hotel_rooms
shows_tab hotel_rooms pickups deliveries pickup = pickups
shows_tab hotel_rooms pickups deliveries delivery = deliveries

unfoldable pub visible_tabs : Bool → Bool → Bool → List OrderContext
unfolding shows_tab
visible_tabs hotel_rooms pickups deliveries =
    keep (shows_tab hotel_rooms pickups deliveries)
      (dine_in ∷ room_service ∷ pickup ∷ delivery ∷ [])

unfoldable pub needs_location : OrderContext → Bool
needs_location dine_in = true
needs_location room_service = true
needs_location _ = false

unfoldable pub is_delivery : OrderContext → Bool
is_delivery delivery = true
is_delivery _ = false

abbrev pub is_empty {ℓ} : {A : Type ℓ} → List A → Bool
is_empty [] = true
is_empty (_ ∷ _) = false

module _ {ℓ} {N : Type ℓ} where
  unfoldable pub can_place_order : CartState N → Bool
  unfolding needs_location is_delivery
  can_place_order s =
      not (is_empty s.lines)
      && (if needs_location s.order_context
          then is_set s.table_id
          else (if is_delivery s.order_context
              then leb 5 (text_length (trim s.delivery_address))
              else true))

  unfoldable pub order_item : CartLine N → OrderItemCreate N
  order_item l = record {
    menu_item_id = l.menu_item_id;
    variant_id = l.variant_id;
    quantity = l.quantity;
    option_ids = map (λ o. o.id) l.options;
    special_instructions = l.special_instructions;
  }

  unfoldable pub order_request : CartState N → String → OrderCreateRequest N
  unfolding needs_location is_delivery order_item
  order_request s notes = record {
    location_id = if needs_location s.order_context then s.table_id else none;
    source = s.order_context;
    pricing_context = s.order_context;
    delivery_address = if is_delivery s.order_context then some (trim s.delivery_address) else none;
    notes = or_none (trim notes);
    customer_id = s.customer_id;
    items = map order_item s.lines;
  }

-- The panel's state, with the requests that were posted, oldest first.
pub record Panel {ℓ} (N : Type ℓ) : Type ℓ where
  pub cart : CartState N
  pub notes : String
  pub error : Option String
  pub posted : List (OrderCreateRequest N)

module _ {ℓ} {N : Type ℓ} where
  -- `handlePlaceOrder` up to its `await`.
  unfoldable pub place_order : Panel N → Panel N
  unfolding can_place_order order_request
  place_order p =
      if not (can_place_order p.cart)
      then p
      else record p { error = none; posted = p.posted ++ (order_request p.cart p.notes ∷ []) }

  -- The rest of it, when the backend has taken the order, and when the request failed.
  unfoldable pub order_placed : Panel N → Panel N
  unfolding clear_cart
  order_placed p = record p { cart = clear_cart p.cart; notes = "" }

  unfoldable pub order_failed : String → Panel N → Panel N
  order_failed message p = record p { error = some message }

module _ {ℓ} {N : Type ℓ} ⦃n : Number N⦄ where
  -- `handleSelectItem`: the cart's lines, and the item whose dialog opens.
  unfoldable pub select_item :
      String → MenuItemOut N → List (CartLine N) → List (CartLine N) × Option (MenuItemOut N)
  unfolding select_simple
  select_item uuid item lines =
      if is_empty item.variants && is_empty item.option_groups
      then (select_simple uuid item.id item.name item.is_veg item.base_price lines, none)
      else (lines, some item)
