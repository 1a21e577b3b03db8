-- ===== src/Queries/IntegrationHooks.antt =====
-- The hooks of frontend/src/features/integrations/hooks.ts that read or change what the backend keeps.
use why_not_grace_pos.Prelude.{String, true, Option, none, List, [], ◌∷◌}
use why_not_grace_pos.Api.Integrations
use why_not_grace_pos.Queries.Options.{name, Effect, invalidate, QueryOptions, MutationOptions}

abbrev pub use_integrations : QueryOptions
use_integrations = record {
  query_key = name "integrations" ∷ [];
  query_fn = Integrations.list;
  enabled = true;
  stale_time = 30_000;
  refetch_interval = none;
}

abbrev pub invalidate_integrations : List Effect
invalidate_integrations = invalidate (name "integrations" ∷ []) ∷ []

abbrev pub use_connect_integration : Option String → String → MutationOptions
use_connect_integration provider payload = record {
  mutation_fn = Integrations.connect provider payload;
  on_success = λ answer. invalidate_integrations;
}

abbrev pub use_disconnect_integration : Option String → MutationOptions
use_disconnect_integration provider = record {
  mutation_fn = Integrations.disconnect provider;
  on_success = λ answer. invalidate_integrations;
}

abbrev pub use_sync_integration_menu : Option String → MutationOptions
use_sync_integration_menu provider = record {
  mutation_fn = Integrations.sync_menu provider;
  on_success = λ answer. [];
}
