-- ===== src/Api/Guests.antt =====
-- The calls of frontend/src/api/qr.ts.
use why_not_grace_pos.Prelude.{Option, String, [], ◌∷◌}
use why_not_grace_pos.Api.Calls.{Call, call, text, word, slot, guest, get, post, json}

abbrev pub scan : Option String → Option String → String → Call
scan slug location_id code =
    record (call guest get (word "qr" ∷ word "scan" ∷ slot slug ∷ slot location_id ∷ [])) {
      params = ("c", text code) ∷ [];
    }

abbrev pub fetch_menu : String → String → Call
fetch_menu token lang = record (call guest get (word "qr" ∷ word "menu" ∷ [])) {
  params = ("lang", text lang) ∷ [];
  headers = ("X-QR-Session", token) ∷ [];
}

abbrev pub place_order : String → String → Call
place_order token payload = record (call guest post (word "qr" ∷ word "orders" ∷ [])) {
  body = json payload;
  headers = ("X-QR-Session", token) ∷ [];
}

abbrev pub fetch_order_status : String → Option String → Call
fetch_order_status token order_id =
    record (call guest get (word "qr" ∷ word "orders" ∷ slot order_id ∷ [])) {
      headers = ("X-QR-Session", token) ∷ [];
    }
