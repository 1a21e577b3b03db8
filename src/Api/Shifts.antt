-- ===== src/Api/Shifts.antt =====
-- The calls of frontend/src/api/shifts.ts.
use why_not_grace_pos.Prelude.{Option, String, [], ◌∷◌}
use why_not_grace_pos.Api.Calls.{Call, call, number, word, slot, staff, get, post, json, fields}

abbrev pub current : Call
current = call staff get (word "shifts" ∷ word "current" ∷ [])

abbrev pub open_shift : String → Call
open_shift opening_float = record (call staff post (word "shifts" ∷ [])) {
  body = fields (("opening_float", number opening_float) ∷ []);
}

abbrev pub close : Option String → String → Call
close shift_id payload =
    record (call staff post (word "shifts" ∷ slot shift_id ∷ word "close" ∷ [])) {
      body = json payload;
    }

abbrev pub report : Option String → Call
report shift_id = call staff get (word "shifts" ∷ slot shift_id ∷ word "report" ∷ [])

abbrev pub list : Call
list = call staff get (word "shifts" ∷ [])
