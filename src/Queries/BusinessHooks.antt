-- ===== src/Queries/BusinessHooks.antt =====
-- The hooks of frontend/src/features/business/hooks.ts that read or change what the backend keeps.
use why_not_grace_pos.Prelude.{String, true, none, [], ◌∷◌}
use why_not_grace_pos.Api.Businesses
use why_not_grace_pos.Queries.Options.{name, invalidate, QueryOptions, MutationOptions}

abbrev pub use_business : QueryOptions
use_business = record {
  query_key = name "business" ∷ name "me" ∷ [];
  query_fn = Businesses.fetch_mine;
  enabled = true;
  stale_time = 300_000;
  refetch_interval = none;
}

abbrev pub use_update_business : String → MutationOptions
use_update_business payload = record {
  mutation_fn = Businesses.update_mine payload;
  on_success = λ answer. invalidate (name "business" ∷ []) ∷ [];
}
