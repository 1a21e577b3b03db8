-- ===== src/Api/Accounts.antt =====
-- The calls of frontend/src/api/auth.ts.
use why_not_grace_pos.Prelude.{String, [], ◌∷◌}
use why_not_grace_pos.Api.Calls.{Call, call, text, word, staff, get, post, json, fields}

abbrev pub log_in : String → Call
log_in payload = record (call staff post (word "auth" ∷ word "login" ∷ [])) { body = json payload }

abbrev pub refresh : String → Call
refresh payload = record (call staff post (word "auth" ∷ word "refresh" ∷ [])) {
  body = json payload;
}

abbrev pub log_out : String → Call
log_out refresh_token = record (call staff post (word "auth" ∷ word "logout" ∷ [])) {
  body = fields (("refresh_token", text refresh_token) ∷ []);
}

abbrev pub forgot_password : String → Call
forgot_password payload = record (call staff post (word "auth" ∷ word "forgot-password" ∷ [])) {
  body = json payload;
}

abbrev pub reset_password : String → Call
reset_password payload = record (call staff post (word "auth" ∷ word "reset-password" ∷ [])) {
  body = json payload;
}

abbrev pub me : Call
me = call staff get (word "auth" ∷ word "me" ∷ [])
