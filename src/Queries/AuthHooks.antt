-- ===== src/Queries/AuthHooks.antt =====
-- The hooks of frontend/src/features/auth/hooks.ts. What signing in and out do to the session stands
-- with the store; to the query cache they do nothing.
use why_not_grace_pos.Prelude.{String, Bool, none, [], ◌∷◌}
use why_not_grace_pos.Api.Accounts
use why_not_grace_pos.Queries.Options.{name, QueryOptions, MutationOptions}

abbrev pub use_current_user : Bool → QueryOptions
use_current_user enabled = record {
  query_key = name "auth" ∷ name "me" ∷ [];
  query_fn = Accounts.me;
  enabled = enabled;
  stale_time = 300_000;
  refetch_interval = none;
}

abbrev pub use_login : String → MutationOptions
use_login payload = record { mutation_fn = Accounts.log_in payload; on_success = λ answer. [] }

abbrev pub use_forgot_password : String → MutationOptions
use_forgot_password payload = record {
  mutation_fn = Accounts.forgot_password payload;
  on_success = λ answer. [];
}

abbrev pub use_reset_password : String → MutationOptions
use_reset_password payload = record {
  mutation_fn = Accounts.reset_password payload;
  on_success = λ answer. [];
}

-- Under a refresh token; without one the hook makes no call.
abbrev pub use_logout : String → MutationOptions
use_logout refresh_token = record {
  mutation_fn = Accounts.log_out refresh_token;
  on_success = λ answer. [];
}
