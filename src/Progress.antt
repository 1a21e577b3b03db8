-- ===== src/Progress.antt =====
-- The way of an order: what frontend/src/features/delivery/DeliveryPage.tsx,
-- frontend/src/features/qr/QrOrderStatusPage.tsx and
-- frontend/src/features/orders/components/OrderDetailDialog.tsx show of its status and offer to do.
pub mod Backend
pub mod Offers
pub mod Tickets
mod Tests
use why_not_grace_pos.Prelude.{
  ℕ, suc, nat_eq, Bool, true, false, not, ◌&&◌, ◌||◌, Option, none, some, List, [], ◌∷◌,
  if◌then◌else◌,
}
use why_not_grace_pos.Access.{UserRole, owner, manager, cash_counter, service_counter}

pub data DeliveryStatus : Type 0 where
  placed confirmed preparing ready out_for_delivery delivered cancelled : DeliveryStatus

-- `DELIVERY_TRANSITIONS`.
unfoldable pub delivery_transitions : DeliveryStatus → List DeliveryStatus
delivery_transitions placed = confirmed ∷ cancelled ∷ []
delivery_transitions confirmed = preparing ∷ cancelled ∷ []
delivery_transitions preparing = ready ∷ cancelled ∷ []
delivery_transitions ready = out_for_delivery ∷ cancelled ∷ []
delivery_transitions out_for_delivery = delivered ∷ cancelled ∷ []
delivery_transitions delivered = []
delivery_transitions cancelled = []

-- `delivery_status ?? "PLACED"`.
abbrev pub current_status : Option DeliveryStatus → DeliveryStatus
current_status none = placed
current_status (some s) = s

unfoldable pub next_options : Option DeliveryStatus → List DeliveryStatus
unfolding delivery_transitions
next_options o = delivery_transitions (current_status o)

pub data OrderStatus : Type 0 where
  placed confirmed preparing ready out_for_delivery served delivered completed cancelled :
      OrderStatus

abbrev pub status_number : OrderStatus → ℕ
status_number placed = 0
status_number confirmed = 1
status_number preparing = 2
status_number ready = 3
status_number out_for_delivery = 4
status_number served = 5
status_number delivered = 6
status_number completed = 7
status_number cancelled = 8

abbrev pub same_status : OrderStatus → OrderStatus → Bool
same_status s t = nat_eq (status_number s) (status_number t)

-- `PROGRESS_STEPS`, without their icons.
abbrev pub progress_steps : List OrderStatus
progress_steps = placed ∷ confirmed ∷ preparing ∷ ready ∷ served ∷ []

abbrev shifted : Option ℕ → Option ℕ
shifted none = none
shifted (some i) = some (suc i)

-- `findIndex`, with none for -1.
abbrev pub find_index : (OrderStatus → Bool) → List OrderStatus → Option ℕ
find_index p [] = none
find_index p (s ∷ ss) = if p s then some 0 else shifted (find_index p ss)

abbrev past_last : OrderStatus → ℕ
past_last delivered = 4
past_last completed = 4
past_last _ = 0

abbrev found_or : Option ℕ → ℕ → ℕ
found_or none d = d
found_or (some i) d = i

unfoldable pub step_index : OrderStatus → ℕ
step_index status =
    found_or (find_index (λ s. same_status s status) progress_steps) (past_last status)

-- The role sets of the order's dialog; a page without a user has no role.
unfoldable pub has_cancel_role : Option UserRole → Bool
has_cancel_role (some owner) = true
has_cancel_role (some manager) = true
has_cancel_role _ = false

unfoldable pub can_serve : Option UserRole → Bool
can_serve (some owner) = true
can_serve (some manager) = true
can_serve (some service_counter) = true
can_serve _ = false

unfoldable pub can_bill : Option UserRole → Bool
can_bill (some owner) = true
can_bill (some manager) = true
can_bill (some cash_counter) = true
can_bill _ = false

abbrev is_over : OrderStatus → Bool
is_over served = true
is_over delivered = true
is_over completed = true
is_over cancelled = true
is_over _ = false

unfoldable pub can_cancel : Option UserRole → OrderStatus → Bool
unfolding has_cancel_role
can_cancel role status = has_cancel_role role && not (is_over status)
