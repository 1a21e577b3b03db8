-- ===== src/Api/PlatformAccounts.antt =====
-- Calls of frontend/src/api/platform.ts: the sign-in of the platform's staff.
use why_not_grace_pos.Prelude.{String, [], ◌∷◌}
use why_not_grace_pos.Api.Calls.{Call, call, text, word, platform, get, post, json, fields}

abbrev pub log_in : String → Call
log_in payload = record (call platform post (word "platform" ∷ word "auth" ∷ word "login" ∷ [])) {
  body = json payload;
}

abbrev pub refresh : String → Call
refresh payload =
    record (call platform post (word "platform" ∷ word "auth" ∷ word "refresh" ∷ [])) {
      body = json payload;
    }

abbrev pub log_out : String → Call
log_out refresh_token =
    record (call platform post (word "platform" ∷ word "auth" ∷ word "logout" ∷ [])) {
      body = fields (("refresh_token", text refresh_token) ∷ []);
    }

abbrev pub me : Call
me = call platform get (word "platform" ∷ word "auth" ∷ word "me" ∷ [])
