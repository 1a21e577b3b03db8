-- ===== src/Queries/AuditHooks.antt =====
-- The hooks of frontend/src/features/admin/hooks.ts that read or change what the backend keeps.
use why_not_grace_pos.Prelude.{String, true, Option, none, [], ◌∷◌}
use why_not_grace_pos.Api.Audit
use why_not_grace_pos.Queries.Options.{name, or_all, filter_by, QueryOptions}

abbrev pub use_audit_logs : Option String → QueryOptions
use_audit_logs action = record {
  query_key = name "admin" ∷ name "audit-logs" ∷ or_all action ∷ [];
  query_fn = Audit.list_logs (filter_by "action" action);
  enabled = true;
  stale_time = 15_000;
  refetch_interval = none;
}
