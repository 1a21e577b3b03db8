-- ===== src/Errors/Retry.antt =====
-- Which failed queries are tried again.
use why_not_grace_pos.Prelude.{ℕ, ◌<◌, true, ◌≡◌, refl, ◌↔◌, ◌⊎◌, Option, none, some, arith}
use why_not_grace_pos.Errors.{Caught, is_client_error, parse_api_error, retry}

-- The answer has a status that is not worth a second try.
abbrev pub IsRefused : Option ℕ → Type 0
IsRefused none = ⊥
IsRefused (some s) = (s ≡ 400) ⊎ (s ≡ 401) ⊎ (s ≡ 403) ⊎ (s ≡ 404) ⊎ (s ≡ 409) ⊎ (s ≡ 422)

is_client_error_iff : (s : ℕ) → (is_client_error s ≡ true) ↔ IsRefused (some s)
unfolding is_client_error
is_client_error_iff s = ground arith

retry_status :
    (n : ℕ) (error : Caught) (status : Option ℕ)
    → (parse_api_error error).status ≡ status
    → (retry n error ≡ true) ↔ ((n < 2) × ¬ IsRefused status)
unfolding retry
retry_status n error none h = rw (h, retry) (ground arith)
retry_status n error (some s) h = rw (h, retry) (ground (arith, is_client_error_iff s))

-- A query that failed is tried again exactly when it failed at most twice before and the error,
-- as the app reads it, has none of the statuses 400, 401, 403, 404, 409 and 422.
pub retry_iff :
    (n : ℕ) (error : Caught)
    → (retry n error ≡ true) ↔ ((n < 2) × ¬ IsRefused (parse_api_error error).status)
retry_iff n error = retry_status n error (parse_api_error error).status refl
