-- ===== src/Queries/ShiftHooks.antt =====
-- The hooks of frontend/src/features/shifts/hooks.ts that read or change what the backend keeps.
use why_not_grace_pos.Prelude.{String, true, Option, none, [], ◌∷◌, is_set}
use why_not_grace_pos.Api.Shifts
use why_not_grace_pos.Queries.Options.{name, maybe, invalidate, QueryOptions, MutationOptions}

abbrev pub use_current_shift : QueryOptions
use_current_shift = record {
  query_key = name "shift-current" ∷ [];
  query_fn = Shifts.current;
  enabled = true;
  stale_time = 5_000;
  refetch_interval = none;
}

abbrev pub use_shift_report : Option String → QueryOptions
use_shift_report shift_id = record {
  query_key = name "shift-report" ∷ maybe shift_id ∷ [];
  query_fn = Shifts.report shift_id;
  enabled = is_set shift_id;
  stale_time = 5_000;
  refetch_interval = none;
}

abbrev pub use_shifts : QueryOptions
use_shifts = record {
  query_key = name "shifts" ∷ [];
  query_fn = Shifts.list;
  enabled = true;
  stale_time = 30_000;
  refetch_interval = none;
}

abbrev pub use_open_shift : String → MutationOptions
use_open_shift opening_float = record {
  mutation_fn = Shifts.open_shift opening_float;
  on_success =
      λ answer. invalidate (name "shift-current" ∷ []) ∷ invalidate (name "shifts" ∷ []) ∷ [];
}

abbrev pub use_close_shift : Option String → String → MutationOptions
use_close_shift shift_id payload = record {
  mutation_fn = Shifts.close shift_id payload;
  on_success = λ answer.
      invalidate (name "shift-current" ∷ [])
      ∷ invalidate (name "shifts" ∷ [])
      ∷ invalidate (name "shift-report" ∷ [])
      ∷ [];
}
