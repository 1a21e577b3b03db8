-- ===== src/Queries/KotHooks.antt =====
-- The hooks of frontend/src/features/kot/hooks.ts that read or change what the backend keeps.
use why_not_grace_pos.Prelude.{String, true, Option, some, [], ◌∷◌}
use why_not_grace_pos.Api.Calls.{Params}
use why_not_grace_pos.Api.Kots
use why_not_grace_pos.Queries.Options.{Part, name, invalidate, QueryOptions, MutationOptions}

abbrev pub use_kots : Params → QueryOptions
use_kots filters = record {
  query_key = name "kot" ∷ Part.params filters ∷ [];
  query_fn = Kots.list filters;
  enabled = true;
  stale_time = 5_000;
  refetch_interval = some 15_000;
}

abbrev pub use_update_kot_status : Option String → String → MutationOptions
use_update_kot_status id payload = record {
  mutation_fn = Kots.update_status id payload;
  on_success = λ answer.
      invalidate (name "kot" ∷ [])
      ∷ invalidate (name "kitchen" ∷ [])
      ∷ invalidate (name "orders" ∷ [])
      ∷ invalidate (name "dashboard" ∷ [])
      ∷ [];
}
