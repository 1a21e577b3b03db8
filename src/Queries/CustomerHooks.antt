-- ===== src/Queries/CustomerHooks.antt =====
-- The hooks of frontend/src/features/customers/hooks.ts that read or change what the backend keeps.
use why_not_grace_pos.Prelude.{String, true, Option, none, [], ◌∷◌}
use why_not_grace_pos.Api.Customers
use why_not_grace_pos.Queries.Options.{name, invalidate, QueryOptions, MutationOptions}

abbrev pub use_customers : QueryOptions
use_customers = record {
  query_key = name "customers" ∷ [];
  query_fn = Customers.list;
  enabled = true;
  stale_time = 30_000;
  refetch_interval = none;
}

abbrev pub use_create_customer : String → MutationOptions
use_create_customer payload = record {
  mutation_fn = Customers.create payload;
  on_success = λ answer. invalidate (name "customers" ∷ []) ∷ [];
}

abbrev pub use_update_customer : Option String → String → MutationOptions
use_update_customer id payload = record {
  mutation_fn = Customers.update id payload;
  on_success = λ answer. invalidate (name "customers" ∷ []) ∷ [];
}
