-- ===== src/Queries/DeliveryHooks.antt =====
-- The hooks of frontend/src/features/delivery/hooks.ts that read or change what the backend keeps.
use why_not_grace_pos.Prelude.{String, true, Option, some, [], ◌∷◌}
use why_not_grace_pos.Api.Deliveries
use why_not_grace_pos.Queries.Options.{name, invalidate, QueryOptions, MutationOptions}

abbrev pub use_delivery_orders : QueryOptions
use_delivery_orders = record {
  query_key = name "delivery" ∷ name "orders" ∷ [];
  query_fn = Deliveries.list_orders;
  enabled = true;
  stale_time = 10_000;
  refetch_interval = some 20_000;
}

abbrev pub use_update_delivery_status : Option String → String → MutationOptions
use_update_delivery_status order_id payload = record {
  mutation_fn = Deliveries.update_status order_id payload;
  on_success = λ answer.
      invalidate (name "delivery" ∷ [])
      ∷ invalidate (name "orders" ∷ [])
      ∷ invalidate (name "dashboard" ∷ [])
      ∷ [];
}
