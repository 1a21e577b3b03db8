-- ===== src/Progress/Offers.antt =====
-- What frontend/src/features/delivery/DeliveryPage.tsx and the order's dialog offer, against the guards of
-- the service.
use why_not_grace_pos.Prelude.{
  ℕ, zero, suc, ◌+◌, ◌≤◌, ◌<◌, nat_eq, ◌||◌, Bool, true, false, Option, none, some, List, [], ◌∷◌,
  ◌≡◌, ◌↔◌, ◌⊎◌, inl, inr, refl, arith, if◌then◌else◌,
}
use why_not_grace_pos.Access.{UserRole}
use why_not_grace_pos.Progress.{
  same_status, DeliveryStatus, OrderStatus, current_status, delivery_transitions, next_options,
  can_cancel, has_cancel_role, can_serve, can_bill,
}
use why_not_grace_pos.Progress.Backend.{
  StoredOrder, delivery_status_transitions, update_delivery_status, cancel_order, role_operational,
  role_service, role_billing, order_status_of, is_active_order,
}

abbrev delivery_number : DeliveryStatus → ℕ
delivery_number DeliveryStatus.placed = 0
delivery_number DeliveryStatus.confirmed = 1
delivery_number DeliveryStatus.preparing = 2
delivery_number DeliveryStatus.ready = 3
delivery_number DeliveryStatus.out_for_delivery = 4
delivery_number DeliveryStatus.delivered = 5
delivery_number DeliveryStatus.cancelled = 6

-- The status is among the options.
abbrev pub offers : List DeliveryStatus → DeliveryStatus → Bool
offers [] s = false
offers (t ∷ ts) s = nat_eq (delivery_number t) (delivery_number s) || offers ts s

-- The statuses that a delivery goes through when each is chosen from the page's options.
pub data Delivers : DeliveryStatus → DeliveryStatus → ℕ → Type 0 where
  here : {s : DeliveryStatus} → Delivers s s 0
  chosen :
      {s t u : DeliveryStatus} {n : ℕ}
      → offers (next_options (some s)) t ≡ true
      → Delivers t u n
      → Delivers s u (suc n)

-- How many choices are left at most.
abbrev pub choices_left : DeliveryStatus → ℕ
choices_left DeliveryStatus.placed = 5
choices_left DeliveryStatus.confirmed = 4
choices_left DeliveryStatus.preparing = 3
choices_left DeliveryStatus.ready = 2
choices_left DeliveryStatus.out_for_delivery = 1
choices_left _ = 0

offered_left :
    (s t : DeliveryStatus)
    → offers (next_options (some s)) t ≡ true
    → choices_left t < choices_left s
unfolding next_options delivery_transitions
offered_left s t h = ground arith

-- Choosing from the page ends, after five choices at most.
pub Delivers-bound :
    {s t : DeliveryStatus} {n : ℕ} → Delivers s t n → n + choices_left t ≤ choices_left s
Delivers-bound here = omega arith
Delivers-bound (chosen {s} {t} o d) = omega (arith, offered_left s t o, Delivers-bound d)

offers_delivery :
    (s t : DeliveryStatus) → offers (delivery_transitions s) t ≡ delivery_status_transitions s t
unfolding delivery_transitions
offers_delivery DeliveryStatus.placed t = ground arith
offers_delivery DeliveryStatus.confirmed t = ground arith
offers_delivery DeliveryStatus.preparing t = ground arith
offers_delivery DeliveryStatus.ready t = ground arith
offers_delivery DeliveryStatus.out_for_delivery t = ground arith
offers_delivery DeliveryStatus.delivered t = ground arith
offers_delivery DeliveryStatus.cancelled t = ground arith

-- The delivery page and the service agree: for an order to be delivered, the service takes exactly the
-- statuses that the page offers for the order's current one, and then both its statuses are the new
-- one; every other status is refused.
pub update_delivery_status-offers :
    (o : StoredOrder) (s : DeliveryStatus)
    → o.is_delivery ≡ true
    → update_delivery_status o s ≡ (
        if offers (next_options o.delivery_status) s
        then some (record o { delivery_status = some s; status = order_status_of s })
        else none)
unfolding update_delivery_status next_options
update_delivery_status-offers o s h =
    rw (h, offers_delivery (current_status o.delivery_status) s) refl

-- Whatever the role and the order, its dialog offers to cancel it exactly to those whose request the
-- service accepts, unless it is cancelled already; and it offers to serve and to bill exactly to the
-- roles that the service lets do so.
pub can_cancel_iff :
    (r : UserRole) (o : StoredOrder)
    → ((can_cancel (some r) o.status ≡ true) ↔ (
        (role_operational r ≡ true)
        × (cancel_order o ≡ some (record o { status = OrderStatus.cancelled }))
        × (same_status o.status OrderStatus.cancelled ≡ false)))
      × (can_serve (some r) ≡ role_service r)
      × (can_bill (some r) ≡ role_billing r)
unfolding can_cancel has_cancel_role can_serve can_bill cancel_order role_operational role_service
    role_billing
can_cancel_iff r o = ground arith

stored_or : Option StoredOrder → StoredOrder → StoredOrder
stored_or none o = o
stored_or (some p) o = p

-- One choice of the first option, and what the service makes of it; a refusal leaves the order.
first_choice : List DeliveryStatus → StoredOrder → StoredOrder
unfolding stored_or
first_choice [] o = o
first_choice (s ∷ ss) o = stored_or (update_delivery_status o s) o

pub choose_first : ℕ → StoredOrder → StoredOrder
unfolding first_choice
choose_first zero o = o
choose_first (suc n) o =
    choose_first n
      (if is_active_order o.status then first_choice (next_options o.delivery_status) o else o)

abbrev pub delivery_at : OrderStatus → Option DeliveryStatus → StoredOrder
delivery_at status d = record { is_delivery = true; delivery_status = d; status = status }

-- A delivery that the page lists, by the order's own status, gets delivered while nobody else changes
-- the order: choosing the page's first option as often as there are choices left,
-- five times for a new order, leaves the service with a delivered one, unless the delivery was
-- cancelled already.
pub choose_first-delivered :
    (status : OrderStatus) (d : Option DeliveryStatus)
    → is_active_order status ≡ true
    → (current_status
          (choose_first (choices_left (current_status d)) (delivery_at status d)).delivery_status
        ≡ DeliveryStatus.delivered)
      ⊎ (current_status d ≡ DeliveryStatus.cancelled)
unfolding choose_first first_choice next_options delivery_transitions update_delivery_status
choose_first-delivered status none h = rw (h) (inl refl)
choose_first-delivered status (some DeliveryStatus.placed) h = rw (h) (inl refl)
choose_first-delivered status (some DeliveryStatus.confirmed) h = rw (h) (inl refl)
choose_first-delivered status (some DeliveryStatus.preparing) h = rw (h) (inl refl)
choose_first-delivered status (some DeliveryStatus.ready) h = rw (h) (inl refl)
choose_first-delivered status (some DeliveryStatus.out_for_delivery) h = rw (h) (inl refl)
choose_first-delivered status (some DeliveryStatus.delivered) h = inl refl
choose_first-delivered status (some DeliveryStatus.cancelled) h = inr refl
