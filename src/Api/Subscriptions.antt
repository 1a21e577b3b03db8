-- ===== src/Api/Subscriptions.antt =====
-- The calls of frontend/src/api/subscription.ts.
use why_not_grace_pos.Prelude.{[], ◌∷◌}
use why_not_grace_pos.Api.Calls.{Call, call, word, staff, get}

abbrev pub fetch : Call
fetch = call staff get (word "subscription" ∷ [])
