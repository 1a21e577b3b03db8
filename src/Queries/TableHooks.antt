-- ===== src/Queries/TableHooks.antt =====
-- The hooks of frontend/src/features/tables/hooks.ts that read or change what the backend keeps.
use why_not_grace_pos.Prelude.{String, true, Option, some, List, [], ◌∷◌}
use why_not_grace_pos.Api.Locations
use why_not_grace_pos.Api.Tables
use why_not_grace_pos.Queries.Options.{name, Effect, invalidate, QueryOptions, MutationOptions}

abbrev pub use_tables : QueryOptions
use_tables = record {
  query_key = name "tables" ∷ [];
  query_fn = Tables.list;
  enabled = true;
  stale_time = 15_000;
  refetch_interval = some 30_000;
}

abbrev pub invalidate_tables : List Effect
invalidate_tables = invalidate (name "tables" ∷ []) ∷ []

abbrev pub use_create_table : String → MutationOptions
use_create_table payload = record {
  mutation_fn = Tables.create payload;
  on_success = λ answer. invalidate_tables;
}

abbrev pub use_update_table : Option String → String → MutationOptions
use_update_table table_id payload = record {
  mutation_fn = Tables.update table_id payload;
  on_success = λ answer. invalidate_tables;
}

abbrev pub use_delete_table : Option String → MutationOptions
use_delete_table table_id = record {
  mutation_fn = Locations.remove table_id;
  on_success = λ answer. invalidate_tables;
}
