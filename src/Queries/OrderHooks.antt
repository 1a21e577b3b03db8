-- ===== src/Queries/OrderHooks.antt =====
-- The hooks of frontend/src/features/orders/hooks.ts that read or change what the backend keeps.
use why_not_grace_pos.Prelude.{String, true, Option, none, some, List, [], ◌∷◌, is_set}
use why_not_grace_pos.Api.Calls.{Params}
use why_not_grace_pos.Api.Orders
use why_not_grace_pos.Queries.Options.{
  Part, name, maybe, Effect, invalidate, QueryOptions, MutationOptions, default_stale_time,
}

abbrev pub use_orders : Params → QueryOptions
use_orders filters = record {
  query_key = name "orders" ∷ Part.params filters ∷ [];
  query_fn = Orders.list filters;
  enabled = true;
  stale_time = 10_000;
  refetch_interval = some 20_000;
}

abbrev pub use_order : Option String → QueryOptions
use_order id = record {
  query_key = name "orders" ∷ name "detail" ∷ maybe id ∷ [];
  query_fn = Orders.fetch id;
  enabled = is_set id;
  stale_time = default_stale_time;
  refetch_interval = none;
}

abbrev pub use_create_order : String → MutationOptions
use_create_order payload = record {
  mutation_fn = Orders.create payload;
  on_success = λ answer.
      invalidate (name "orders" ∷ [])
      ∷ invalidate (name "tables" ∷ [])
      ∷ invalidate (name "kot" ∷ [])
      ∷ invalidate (name "kitchen" ∷ [])
      ∷ invalidate (name "dashboard" ∷ [])
      ∷ [];
}

abbrev pub use_cancel_order : Option String → MutationOptions
use_cancel_order id = record {
  mutation_fn = Orders.cancel id;
  on_success = λ answer.
      invalidate (name "orders" ∷ [])
      ∷ invalidate (name "kot" ∷ [])
      ∷ invalidate (name "kitchen" ∷ [])
      ∷ [];
}

abbrev pub invalidate_after_table_move : List Effect
invalidate_after_table_move =
    invalidate (name "orders" ∷ [])
    ∷ invalidate (name "tables" ∷ [])
    ∷ invalidate (name "kot" ∷ [])
    ∷ invalidate (name "kitchen" ∷ [])
    ∷ invalidate (name "billing" ∷ name "unbilled-orders" ∷ [])
    ∷ []

abbrev pub use_transfer_session : Option String → Option String → MutationOptions
use_transfer_session session_id location_id = record {
  mutation_fn = Orders.transfer_session session_id location_id;
  on_success = λ answer. invalidate_after_table_move;
}

abbrev pub use_merge_sessions : Option String → Option String → MutationOptions
use_merge_sessions session_id into_session_id = record {
  mutation_fn = Orders.merge_sessions session_id into_session_id;
  on_success = λ answer. invalidate_after_table_move;
}
