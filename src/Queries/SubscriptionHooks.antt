-- ===== src/Queries/SubscriptionHooks.antt =====
-- The hooks of frontend/src/features/subscription/hooks.ts that read or change what the backend keeps.
use why_not_grace_pos.Prelude.{true, none, [], ◌∷◌}
use why_not_grace_pos.Api.Subscriptions
use why_not_grace_pos.Queries.Options.{name, QueryOptions}

abbrev pub use_subscription : QueryOptions
use_subscription = record {
  query_key = name "subscription" ∷ [];
  query_fn = Subscriptions.fetch;
  enabled = true;
  stale_time = 30_000;
  refetch_interval = none;
}
