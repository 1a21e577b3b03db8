-- ===== src/Api/Audit.antt =====
-- The calls of frontend/src/api/admin.ts.
use why_not_grace_pos.Prelude.{[], ◌∷◌}
use why_not_grace_pos.Api.Calls.{Call, call, Params, word, staff, get}

abbrev pub list_logs : Params → Call
list_logs params = record (call staff get (word "admin" ∷ word "audit-logs" ∷ [])) {
  params = params;
}
