-- ===== src/Progress/Tests.antt =====
-- The theorems about the way of an order at concrete orders and tickets.
use why_not_grace_pos.Prelude.{true, false, none, some, ◌≡◌, ◌↔◌, ◌⊎◌, refl, if◌then◌else◌}
use why_not_grace_pos.Access.{manager}
use why_not_grace_pos.Kitchen.{KotStatus, advance, cancel, asked}
use why_not_grace_pos.Progress.{
  DeliveryStatus, OrderStatus, same_status, current_status, next_options, can_cancel, can_serve,
  can_bill,
}
use why_not_grace_pos.Progress.Backend.{
  StoredOrder, update_delivery_status, cancel_order, role_operational, role_service, role_billing,
  update_kot_status, is_queued,
}
use why_not_grace_pos.Progress.Offers.{
  offers, choices_left, update_delivery_status-offers, can_cancel_iff, choose_first, delivery_at,
  choose_first-delivered,
}
use why_not_grace_pos.Progress.Tickets.{update_kot_status_iff}

abbrev cooking : StoredOrder
cooking = delivery_at OrderStatus.preparing (some DeliveryStatus.preparing)

update_delivery_status-offers_example : update_delivery_status cooking DeliveryStatus.ready ≡ (
    if offers (next_options cooking.delivery_status) DeliveryStatus.ready
    then some
        (record cooking { delivery_status = some DeliveryStatus.ready; status = OrderStatus.ready })
    else none)
update_delivery_status-offers_example =
    update_delivery_status-offers cooking DeliveryStatus.ready refl

choose_first-delivered_example :
    (current_status (choose_first (choices_left DeliveryStatus.preparing) cooking).delivery_status
      ≡ DeliveryStatus.delivered)
    ⊎ (◌≡◌ {A = DeliveryStatus} DeliveryStatus.preparing DeliveryStatus.cancelled)
choose_first-delivered_example =
    choose_first-delivered OrderStatus.preparing (some DeliveryStatus.preparing) refl

can_cancel_iff_example :
    ((can_cancel (some manager) cooking.status ≡ true) ↔ (
      (role_operational manager ≡ true)
      × (cancel_order cooking ≡ some (record cooking { status = OrderStatus.cancelled }))
      × (same_status cooking.status OrderStatus.cancelled ≡ false)))
    × (can_serve (some manager) ≡ role_service manager)
    × (can_bill (some manager) ≡ role_billing manager)
can_cancel_iff_example = can_cancel_iff manager cooking

update_kot_status_iff_example :
    (update_kot_status KotStatus.preparing KotStatus.ready ≡ some KotStatus.ready) ↔ (
      (asked advance KotStatus.preparing ≡ some KotStatus.ready)
      ⊎ (asked cancel KotStatus.preparing ≡ some KotStatus.ready))
unfolding is_queued
update_kot_status_iff_example = update_kot_status_iff KotStatus.preparing KotStatus.ready refl
