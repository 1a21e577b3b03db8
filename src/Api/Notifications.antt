-- ===== src/Api/Notifications.antt =====
-- The calls of frontend/src/api/notifications.ts.
use why_not_grace_pos.Prelude.{Option, String, [], ◌∷◌}
use why_not_grace_pos.Api.Calls.{Call, call, word, slot, staff, get, post}

abbrev pub list : Call
list = call staff get (word "notifications" ∷ [])

abbrev pub mark_read : Option String → Call
mark_read notification_id =
    call staff post (word "notifications" ∷ slot notification_id ∷ word "read" ∷ [])

abbrev pub mark_all_read : Call
mark_all_read = call staff post (word "notifications" ∷ word "read-all" ∷ [])
