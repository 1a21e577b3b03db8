-- ===== src/Progress/Backend.antt =====
-- What the service accepts: the guards of backend/app/services/order_service.py and
-- backend/app/services/kot_service.py, and the role sets of backend/app/core/permissions.py that
-- backend/app/api asks for. A refusal is none.
use why_not_grace_pos.Prelude.{Bool, true, false, not, Option, none, some, if◌then◌else◌}
use why_not_grace_pos.Access.{UserRole, owner, manager, cash_counter, service_counter}
use why_not_grace_pos.Kitchen.{KotStatus}
use why_not_grace_pos.Progress.{DeliveryStatus, OrderStatus, current_status}

-- `DELIVERY_STATUS_TRANSITIONS`, a set for each status.
abbrev pub delivery_status_transitions : DeliveryStatus → DeliveryStatus → Bool
delivery_status_transitions DeliveryStatus.placed DeliveryStatus.confirmed = true
delivery_status_transitions DeliveryStatus.placed DeliveryStatus.cancelled = true
delivery_status_transitions DeliveryStatus.confirmed DeliveryStatus.preparing = true
delivery_status_transitions DeliveryStatus.confirmed DeliveryStatus.cancelled = true
delivery_status_transitions DeliveryStatus.preparing DeliveryStatus.ready = true
delivery_status_transitions DeliveryStatus.preparing DeliveryStatus.cancelled = true
delivery_status_transitions DeliveryStatus.ready DeliveryStatus.out_for_delivery = true
delivery_status_transitions DeliveryStatus.ready DeliveryStatus.cancelled = true
delivery_status_transitions DeliveryStatus.out_for_delivery DeliveryStatus.delivered = true
delivery_status_transitions DeliveryStatus.out_for_delivery DeliveryStatus.cancelled = true
delivery_status_transitions _ _ = false

-- `OrderStatus(new_status)`.
abbrev pub order_status_of : DeliveryStatus → OrderStatus
order_status_of DeliveryStatus.placed = OrderStatus.placed
order_status_of DeliveryStatus.confirmed = OrderStatus.confirmed
order_status_of DeliveryStatus.preparing = OrderStatus.preparing
order_status_of DeliveryStatus.ready = OrderStatus.ready
order_status_of DeliveryStatus.out_for_delivery = OrderStatus.out_for_delivery
order_status_of DeliveryStatus.delivered = OrderStatus.delivered
order_status_of DeliveryStatus.cancelled = OrderStatus.cancelled

-- Of an order, what the guards read and write.
pub record StoredOrder : Type 0 where
  pub is_delivery : Bool
  pub delivery_status : Option DeliveryStatus
  pub status : OrderStatus

unfoldable pub update_delivery_status : StoredOrder → DeliveryStatus → Option StoredOrder
update_delivery_status o s =
    if not o.is_delivery
    then none
    else if delivery_status_transitions (current_status o.delivery_status) s
    then some (record o { delivery_status = some s; status = order_status_of s })
    else none

-- `_ACTIVE_ORDER_STATUSES`: the worklist of deliveries has the orders with one of these.
abbrev pub is_active_order : OrderStatus → Bool
is_active_order OrderStatus.placed = true
is_active_order OrderStatus.confirmed = true
is_active_order OrderStatus.preparing = true
is_active_order OrderStatus.ready = true
is_active_order OrderStatus.out_for_delivery = true
is_active_order _ = false

abbrev is_completed : OrderStatus → Bool
is_completed OrderStatus.served = true
is_completed OrderStatus.delivered = true
is_completed OrderStatus.completed = true
is_completed _ = false

unfoldable pub cancel_order : StoredOrder → Option StoredOrder
cancel_order o =
    if is_completed o.status then none else some (record o { status = OrderStatus.cancelled })

-- `_ALLOWED_TRANSITIONS`.
abbrev pub allowed_transitions : KotStatus → KotStatus → Bool
allowed_transitions KotStatus.new KotStatus.accepted = true
allowed_transitions KotStatus.new KotStatus.cancelled = true
allowed_transitions KotStatus.accepted KotStatus.preparing = true
allowed_transitions KotStatus.accepted KotStatus.cancelled = true
allowed_transitions KotStatus.preparing KotStatus.ready = true
allowed_transitions KotStatus.preparing KotStatus.cancelled = true
allowed_transitions KotStatus.ready KotStatus.served = true
allowed_transitions _ _ = false

-- `update_kot_status`, the ticket's status alone.
unfoldable pub update_kot_status : KotStatus → KotStatus → Option KotStatus
update_kot_status s t = if allowed_transitions s t then some t else none

-- The tickets of `kitchen_queue`.
unfoldable pub is_queued : KotStatus → Bool
is_queued KotStatus.new = true
is_queued KotStatus.accepted = true
is_queued KotStatus.preparing = true
is_queued _ = false

unfoldable pub role_operational : UserRole → Bool
role_operational owner = true
role_operational manager = true
role_operational _ = false

unfoldable pub role_service : UserRole → Bool
role_service owner = true
role_service manager = true
role_service service_counter = true
role_service _ = false

unfoldable pub role_billing : UserRole → Bool
role_billing owner = true
role_billing manager = true
role_billing cash_counter = true
role_billing _ = false
