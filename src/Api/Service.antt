-- ===== src/Api/Service.antt =====
-- The calls of frontend/src/api/kitchen.ts.
use why_not_grace_pos.Prelude.{Option, String, [], ◌∷◌}
use why_not_grace_pos.Api.Calls.{Call, call, word, slot, staff, get, post}

abbrev pub queue : Call
queue = call staff get (word "kitchen" ∷ word "queue" ∷ [])

abbrev pub ready : Call
ready = call staff get (word "kitchen" ∷ word "service" ∷ word "ready" ∷ [])

abbrev pub serve : Option String → Call
serve kot_id = call staff post (word "kitchen" ∷ word "service" ∷ slot kot_id ∷ word "serve" ∷ [])
