-- ===== src/Auth.antt =====
-- The sessions of frontend/src/stores/authStore.ts and platformAuthStore.ts, and how a page load
-- resumes one (frontend/src/hooks). A business user and a platform user differ in the type of
-- `user` alone, so it is a parameter.
pub mod Bootstrap
mod Tests
use why_not_grace_pos.Prelude.{String, Bool, false, Option, none, some, is_set}

-- `AccessTokenResponse`, and the pair of tokens in `TokenPairResponse`.
pub record Tokens : Type 0 where
  pub access_token : String
  pub refresh_token : String

pub record AuthStore (U : Type 0) : Type 0 where
  pub access_token : Option String
  pub refresh_token : Option String
  pub user : Option U
  pub hydrated : Bool

-- What `partialize` keeps in `localStorage`.
pub record Persisted (U : Type 0) : Type 0 where
  pub refresh_token : Option String
  pub user : Option U

module _ {U : Type 0} where
  abbrev pub initial_store : AuthStore U
  initial_store = record {
    access_token = none;
    refresh_token = none;
    user = none;
    hydrated = false;
  }

  unfoldable pub set_session : Tokens → U → AuthStore U → AuthStore U
  set_session tokens user s = record s {
    access_token = some tokens.access_token;
    refresh_token = some tokens.refresh_token;
    user = some user;
  }

  unfoldable pub set_tokens : Tokens → AuthStore U → AuthStore U
  set_tokens tokens s = record s {
    access_token = some tokens.access_token;
    refresh_token = some tokens.refresh_token;
  }

  unfoldable pub set_user : U → AuthStore U → AuthStore U
  set_user user s = record s { user = some user }

  unfoldable pub clear_session : AuthStore U → AuthStore U
  clear_session s = record s { access_token = none; refresh_token = none; user = none }

  unfoldable pub set_hydrated : Bool → AuthStore U → AuthStore U
  set_hydrated value s = record s { hydrated = value }

  unfoldable pub is_authenticated : AuthStore U → Bool
  is_authenticated s = is_set s.access_token

  unfoldable pub partialize : AuthStore U → Persisted U
  partialize s = record { refresh_token = s.refresh_token; user = s.user }

  -- zustand's `persist`: on a page load the kept fields are merged over the initial state.
  unfoldable pub rehydrate : Persisted U → AuthStore U
  rehydrate p = record initial_store { refresh_token = p.refresh_token; user = p.user }
