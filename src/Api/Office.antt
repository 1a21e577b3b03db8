-- ===== src/Api/Office.antt =====
-- The calls of frontend/src/api/dashboard.ts.
use why_not_grace_pos.Prelude.{[], ◌∷◌}
use why_not_grace_pos.Api.Calls.{Call, call, word, staff, get}

abbrev pub dashboard : Call
dashboard = call staff get (word "dashboard" ∷ [])
