-- ===== src/Request.antt =====
-- What frontend/src/api/client.ts and platformClient.ts do with one request: its configuration, the
-- header that is set on it, and the guard that decides whether a refused one may be sent again.
use why_not_grace_pos.Prelude.{
  ℕ, String, Bool, false, not, ◌||◌, Option, none, some, List, [], ◌∷◌, is_truthy, text_includes,
  text_append, nat_eq, if◌then◌else◌,
}

-- The paths whose 401 answers are never refreshed.
pub record Endpoints : Type 0 where
  pub login : String
  pub refresh : String

abbrev pub business_endpoints : Endpoints
business_endpoints = record { login = "/auth/login"; refresh = "/auth/refresh" }

abbrev pub platform_endpoints : Endpoints
platform_endpoints = record { login = "/platform/auth/login"; refresh = "/platform/auth/refresh" }

-- `RetryableConfig`. `key` tells the promises of the callers apart; `authorization` is the header.
pub record Request : Type 0 where
  pub key : ℕ
  pub url : Option String
  pub authorization : Option String
  pub retried : Bool

-- `tag` stands for the rest of an error that axios reports.
pub record HttpError : Type 0 where
  pub status : Option ℕ
  pub has_config : Bool
  pub tag : ℕ

-- What a promise is rejected with. `no_error` is the `null` of `flushQueue(null, token)`.
pub data Reason : Type 0 where
  no_error : Reason
  no_refresh_token : Reason
  http : HttpError → Reason

pub data Outcome : Type 0 where
  resolved : Outcome
  rejected : Reason → Outcome

abbrev pub bearer : String → String
bearer token = text_append "Bearer " token

abbrev pub with_token : String → Request → Request
with_token token r = record r { authorization = some (bearer token) }

-- The request interceptor.
unfoldable pub authorize : Option String → Request → Request
authorize none r = r
authorize (some token) r = if is_truthy token then with_token token r else r

unfoldable pub is_excluded : Endpoints → Option String → Bool
is_excluded e none = false
is_excluded e (some url) = text_includes url e.login || text_includes url e.refresh

unfoldable pub is_unauthorized : Option ℕ → Bool
is_unauthorized none = false
is_unauthorized (some status) = nat_eq status 401

-- The guard of the response interceptor: `true` is the early `Promise.reject(error)`.
unfoldable pub is_final : Endpoints → Request → HttpError → Bool
unfolding is_excluded is_unauthorized
is_final e r err =
    not (is_unauthorized err.status) || not err.has_config || r.retried || is_excluded e r.url

put_back : Request → Option (Request × List Request) → Option (Request × List Request)
put_back r none = none
put_back r (some (found, rest)) = some (found, r ∷ rest)

-- The first request with the key, and the others.
unfoldable pub take_request : ℕ → List Request → Option (Request × List Request)
unfolding put_back
take_request key [] = none
take_request key (r ∷ rs) =
    if nat_eq r.key key then some (r, rs) else put_back r (take_request key rs)
