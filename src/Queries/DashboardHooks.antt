-- ===== src/Queries/DashboardHooks.antt =====
-- The hooks of frontend/src/features/dashboard/hooks.ts that read or change what the backend keeps.
use why_not_grace_pos.Prelude.{Option, some, [], ◌∷◌}
use why_not_grace_pos.Access.{UserRole}
use why_not_grace_pos.Api.Office
use why_not_grace_pos.Queries.Options.{name, is_dashboard_role, QueryOptions}

abbrev pub use_dashboard : Option UserRole → QueryOptions
use_dashboard role = record {
  query_key = name "dashboard" ∷ [];
  query_fn = Office.dashboard;
  enabled = is_dashboard_role role;
  stale_time = 30_000;
  refetch_interval = some 60_000;
}
