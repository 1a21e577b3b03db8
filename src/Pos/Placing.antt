-- ===== src/Pos/Placing.antt =====
-- What reaches the backend when an order is placed, and what stays in the cart.
use why_not_grace_pos.Prelude.{
  inl, inr, Bool-cases, ◌≤◌, String, true, false, ◌≡◌, ◌≢◌, refl, ◌↔◌, none, some, [], ◌∷◌, ◌++◌,
  map, arith, is_set, trim, text_length,
}
use mathlib.Core.List.{append_assoc}
use why_not_grace_pos.Cart.{LineBody, add_line}
use why_not_grace_pos.Pos.{
  OrderContext, dine_in, room_service, pickup, delivery, OrderCreateRequest, CartState, Panel,
  set_order_context, can_place_order, order_item, order_request, place_order, order_placed,
  order_failed, needs_location,
}

module _ {ℓ} {N : Type ℓ} where
  -- A cart that may be ordered, by the kind of the order.
  abbrev pub MayOrder : OrderContext → CartState N → Type ℓ
  MayOrder delivery s = (s.lines ≢ []) × (5 ≤ text_length (trim s.delivery_address))
  MayOrder pickup s = (s.lines ≢ [])
  MayOrder _ s = (s.lines ≢ []) × (is_set s.table_id ≡ true)

  -- The order button works exactly for a cart with a line, and with a table for an order that is
  -- eaten in the house or on a room, or an address of five characters or more, spaces around it
  -- not counted, for a delivery.
  pub can_place_order_iff :
      (context : OrderContext) (s : CartState N)
      → s.order_context ≡ context
      → (can_place_order s ≡ true) ↔ MayOrder context s
  unfolding can_place_order
  can_place_order_iff dine_in s h = ground arith
  can_place_order_iff room_service s h = ground arith
  can_place_order_iff pickup s h = ground arith
  can_place_order_iff delivery s h = ground arith

  -- What a request of each kind carries.
  abbrev pub Carries : OrderContext → OrderCreateRequest N → Type 0
  Carries delivery r =
      (r.location_id ≡ none)
      × ((address : String) × (r.delivery_address ≡ some address) × (5 ≤ text_length address))
  Carries pickup r = (r.location_id ≡ none) × (r.delivery_address ≡ none)
  Carries _ r = (is_set r.location_id ≡ true) × (r.delivery_address ≡ none)

  order_request-Carries :
      (context : OrderContext) (s : CartState N) (notes : String)
      → s.order_context ≡ context
      → can_place_order s ≡ true
      → Carries context (order_request s notes)
  unfolding can_place_order order_request
  order_request-Carries dine_in s notes h ok = ground arith
  order_request-Carries room_service s notes h ok = ground arith
  order_request-Carries pickup s notes h ok = ground arith
  order_request-Carries delivery s notes h ok =
      (ground arith, (trim s.delivery_address, ground arith, ground arith))

  -- If the cart may be ordered, placing the order posts one more request: it is of the cart's kind,
  -- has an address if and only if it is a delivery and a location if and only if it is eaten in the
  -- house, and has one item for each line, in the lines' order. The cart and the notes stay as they
  -- are until the backend answers.
  pub place_order_posts :
      (p : Panel N)
      → can_place_order p.cart ≡ true
      → let r = order_request p.cart p.notes in
        (place_order p ≡ record p { error = none; posted = p.posted ++ (r ∷ []) })
        × (r.source ≡ p.cart.order_context)
        × Carries p.cart.order_context r
        × (r.items ≡ map order_item p.cart.lines)
  unfolding place_order
  place_order_posts p ok = (
    ground arith,
    unfold order_request in refl,
    order_request-Carries p.cart.order_context p.cart p.notes refl ok,
    unfold order_request in refl,
  )

  -- A cart that may not be ordered is not: nothing is posted, and nothing else changes either.
  pub place_order_refused :
      (p : Panel N) → ¬ MayOrder p.cart.order_context p.cart → place_order p ≡ p
  unfolding place_order
  place_order_refused p refused = elim (Bool-cases (can_place_order p.cart)) [
    | inl ok ↦ absurd (refused ((can_place_order_iff p.cart.order_context p.cart refl).0 ok))
    | inr e ↦ ground arith
  ]

  -- Once the backend has taken the order, placing it again posts nothing: no order is sent twice.
  pub place_order-order_placed : (p : Panel N) → place_order (order_placed p) ≡ order_placed p
  unfolding place_order order_placed
  place_order-order_placed p = ground arith

  -- If the request fails, the cart and the notes are kept, and placing the order again posts the
  -- same request a second time.
  pub place_order_retry :
      (p : Panel N) (message : String)
      → can_place_order p.cart ≡ true
      → let r = order_request p.cart p.notes in
        (place_order (order_failed message (place_order p))).posted ≡ p.posted ++ (r ∷ r ∷ [])
  unfolding place_order order_failed
  place_order_retry p message ok =
      let r = order_request p.cart p.notes in
      ground (arith, append_assoc p.posted (r ∷ []) (r ∷ []))

  -- A change of the kind of order forgets the table: where the new kind needs one, the order cannot
  -- be placed before a table or room is chosen again.
  pub set_order_context-can_place_order :
      (context : OrderContext) (s : CartState N)
      → needs_location context ≡ true
      → can_place_order (set_order_context context s) ≡ false
  unfolding can_place_order set_order_context
  set_order_context-can_place_order context s h = ground arith

  -- A line that is added while the order is on its way is lost: it is not in the request, and the
  -- backend's answer empties the cart of it.
  pub order_placed_drops :
      (p : Panel N) (uuid : String) (body : LineBody N)
      → can_place_order p.cart ≡ true
      → let sent = place_order p in
        let more = record sent {
          cart = record (sent.cart) { lines = add_line uuid body sent.cart.lines };
        } in
        let done = order_placed more in
        (done.cart.lines ≡ []) × (done.posted ≡ p.posted ++ (order_request p.cart p.notes ∷ []))
  unfolding place_order order_placed
  order_placed_drops p uuid body ok = ground arith
