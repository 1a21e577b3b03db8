-- ===== src/Queries/PricingHooks.antt =====
-- The hooks of frontend/src/features/pricing/hooks.ts that read or change what the backend keeps.
use why_not_grace_pos.Prelude.{String, true, Option, none, List, [], ◌∷◌}
use why_not_grace_pos.Api.Pricing
use why_not_grace_pos.Queries.Options.{
  name, or_all, filter_by, Effect, invalidate, QueryOptions, MutationOptions,
}

abbrev pub use_price_rules : Option String → QueryOptions
use_price_rules item_id = record {
  query_key = name "pricing-rules" ∷ or_all item_id ∷ [];
  query_fn = Pricing.list_rules (filter_by "item_id" item_id);
  enabled = true;
  stale_time = 30_000;
  refetch_interval = none;
}

abbrev pub invalidate_pricing : List Effect
invalidate_pricing = invalidate (name "pricing-rules" ∷ []) ∷ []

abbrev pub use_create_price_rule : String → MutationOptions
use_create_price_rule payload = record {
  mutation_fn = Pricing.create_rule payload;
  on_success = λ answer. invalidate_pricing;
}

abbrev pub use_update_price_rule : Option String → String → MutationOptions
use_update_price_rule rule_id payload = record {
  mutation_fn = Pricing.update_rule rule_id payload;
  on_success = λ answer. invalidate_pricing;
}

abbrev pub use_delete_price_rule : Option String → MutationOptions
use_delete_price_rule rule_id = record {
  mutation_fn = Pricing.delete_rule rule_id;
  on_success = λ answer. invalidate_pricing;
}
