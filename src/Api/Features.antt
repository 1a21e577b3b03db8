-- ===== src/Api/Features.antt =====
-- The calls of frontend/src/api/featureFlags.ts.
use why_not_grace_pos.Prelude.{[], ◌∷◌}
use why_not_grace_pos.Api.Calls.{Call, call, word, staff, get}

abbrev pub list : Call
list = call staff get (word "settings" ∷ word "features" ∷ [])
