-- ===== src/Queries/KitchenHooks.antt =====
-- The hooks of frontend/src/features/kitchen/hooks.ts that read or change what the backend keeps.
use why_not_grace_pos.Prelude.{String, true, Option, some, [], ◌∷◌}
use why_not_grace_pos.Api.Service
use why_not_grace_pos.Queries.Options.{name, invalidate, QueryOptions, MutationOptions}

abbrev pub use_kitchen_queue : QueryOptions
use_kitchen_queue = record {
  query_key = name "kitchen" ∷ name "queue" ∷ [];
  query_fn = Service.queue;
  enabled = true;
  stale_time = 5_000;
  refetch_interval = some 15_000;
}

abbrev pub use_ready_for_service : QueryOptions
use_ready_for_service = record {
  query_key = name "kitchen" ∷ name "ready" ∷ [];
  query_fn = Service.ready;
  enabled = true;
  stale_time = 5_000;
  refetch_interval = some 15_000;
}

abbrev pub use_serve_kot : Option String → MutationOptions
use_serve_kot kot_id = record {
  mutation_fn = Service.serve kot_id;
  on_success = λ answer.
      invalidate (name "kitchen" ∷ [])
      ∷ invalidate (name "kot" ∷ [])
      ∷ invalidate (name "orders" ∷ [])
      ∷ invalidate (name "dashboard" ∷ [])
      ∷ [];
}
