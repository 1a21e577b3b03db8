-- ===== src/Api/Toggles.antt =====
-- The calls of frontend/src/api/toggles.ts.
use why_not_grace_pos.Prelude.{Option, String, [], ◌∷◌, Bool}
use why_not_grace_pos.Api.Calls.{Call, call, flag, word, slot, staff, get, put, delete, fields}

abbrev pub list : Call
list = call staff get (word "settings" ∷ word "toggles" ∷ [])

abbrev pub update : Option String → Bool → Call
update key enabled = record (call staff put (word "settings" ∷ word "toggles" ∷ slot key ∷ [])) {
  body = fields (("enabled", flag enabled) ∷ []);
}

abbrev pub reset : Option String → Call
reset key = call staff delete (word "settings" ∷ word "toggles" ∷ slot key ∷ [])

abbrev pub invoice_series : Call
invoice_series = call staff get (word "settings" ∷ word "invoice-series" ∷ [])
