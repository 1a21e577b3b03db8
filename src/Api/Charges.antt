-- ===== src/Api/Charges.antt =====
-- The calls of frontend/src/api/charges.ts.
use why_not_grace_pos.Prelude.{Option, String, [], ◌∷◌}
use why_not_grace_pos.Api.Calls.{
  Call, call, text_or_null, number_or_zero, word, slot, staff, get, post, put, delete, json, fields,
}

abbrev pub list_bands : Call
list_bands = call staff get (word "charges" ∷ word "bands" ∷ [])

abbrev pub create_band : String → Call
create_band payload = record (call staff post (word "charges" ∷ word "bands" ∷ [])) {
  body = json payload;
}

abbrev pub update_band : Option String → String → Call
update_band band_id payload =
    record (call staff put (word "charges" ∷ word "bands" ∷ slot band_id ∷ [])) {
      body = json payload;
    }

abbrev pub delete_band : Option String → Call
delete_band band_id = call staff delete (word "charges" ∷ word "bands" ∷ slot band_id ∷ [])

abbrev pub preview : Option String → Option String → Call
preview amount context = record (call staff post (word "charges" ∷ word "preview" ∷ [])) {
  body = fields (("amount", number_or_zero amount) ∷ ("context", text_or_null context) ∷ []);
}
