-- ===== src/Queries/StaffHooks.antt =====
-- The hooks of frontend/src/features/staff/hooks.ts that read or change what the backend keeps.
use why_not_grace_pos.Prelude.{String, true, Option, none, List, [], ◌∷◌}
use why_not_grace_pos.Api.Staff
use why_not_grace_pos.Queries.Options.{name, Effect, invalidate, QueryOptions, MutationOptions}

abbrev pub use_staff : QueryOptions
use_staff = record {
  query_key = name "staff" ∷ [];
  query_fn = Staff.list;
  enabled = true;
  stale_time = 30_000;
  refetch_interval = none;
}

abbrev pub invalidate_staff : List Effect
invalidate_staff = invalidate (name "staff" ∷ []) ∷ []

abbrev pub use_create_staff : String → MutationOptions
use_create_staff payload = record {
  mutation_fn = Staff.create payload;
  on_success = λ answer. invalidate_staff;
}

abbrev pub use_update_staff : Option String → String → MutationOptions
use_update_staff staff_id payload = record {
  mutation_fn = Staff.update staff_id payload;
  on_success = λ answer. invalidate_staff;
}

abbrev pub use_reset_staff_access : Option String → MutationOptions
use_reset_staff_access staff_id = record {
  mutation_fn = Staff.reset_access staff_id;
  on_success = λ answer. invalidate_staff;
}
