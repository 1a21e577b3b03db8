-- ===== src/Client.antt =====
-- frontend/src/api/client.ts and platformClient.ts: every request of the app goes through this
-- client, which refreshes the access token on a 401 answer and sends the refused requests again.
-- The two files differ in their endpoints, their store and the type of the user: parameters here.
-- The state is what the module keeps (`isRefreshing`, `queue`), the store that it reads and writes,
-- and the requests and refresh calls that have no answer yet. The event loop runs one handler up to
-- its next `await` at a time, so each event below is one such stretch of code.
-- axios itself is not modelled: a request that it sends is put into `flying`, with its config's own
-- fields, and an event answers it. `settled` is what the callers' promises came to.
pub mod Refresh
pub mod Settling
pub mod Replay
pub mod Exclusion
pub mod Sends
mod Tests
use why_not_grace_pos.Prelude.{
  ℕ, String, Bool, true, false, Option, none, some, List, [], ◌∷◌, ◌++◌, is_truthy, if◌then◌else◌,
}
use why_not_grace_pos.Request.{
  Request, HttpError, Reason, no_error, no_refresh_token, http, Outcome, resolved, rejected,
  Endpoints, with_token, authorize, is_final, take_request,
}
use why_not_grace_pos.Auth.{AuthStore, Tokens, set_tokens, clear_session}

-- A call of `refreshAccessToken` that has not come back: with no refresh token it will throw, else
-- it waits for the answer to the post.
pub data RefreshCall : Type 0 where
  doomed : RefreshCall
  posting : String → RefreshCall

-- The request whose handler waits for the call, and the call.
pub record Leader : Type 0 where
  pub original : Request
  pub call : RefreshCall

pub record Client (U : Type 0) : Type 0 where
  pub store : AuthStore U
  pub is_refreshing : Bool
  pub queue : List Request
  pub leaders : List Leader
  pub flying : List Request
  pub sent : List Request
  pub settled : List (ℕ × Outcome)

-- A caller starts a request; the backend answers one, well or not; the refresh post gives tokens or
-- throws (`throws` stands for the throw of a call with no refresh token too); other code writes to
-- the store.
pub data Event (U : Type 0) : Type 0 where
  calls : ℕ → Option String → Event U
  succeeds : ℕ → Event U
  fails : ℕ → HttpError → Event U
  gives : Tokens → Event U
  throws : HttpError → Event U
  writes : (AuthStore U → AuthStore U) → Event U

module _ {U : Type 0} where
  -- The module as it is loaded.
  abbrev pub fresh_client : AuthStore U → Client U
  fresh_client s = record {
    store = s;
    is_refreshing = false;
    queue = [];
    leaders = [];
    flying = [];
    sent = [];
    settled = [];
  }

  -- `apiClient(config)`.
  unfoldable pub send : Request → Client U → Client U
  unfolding authorize
  send r c =
      let r' = authorize c.store.access_token r in
      record c { flying = c.flying ++ (r' ∷ []); sent = c.sent ++ (r' ∷ []) }

  unfoldable pub settle : ℕ → Outcome → Client U → Client U
  settle key outcome c = record c { settled = c.settled ++ ((key, outcome) ∷ []) }

  -- One round of the loop of `flushQueue`: `resolve` sends the entry again under the new token.
  unfoldable pub flush_entry : Reason → Option String → Request → Client U → Client U
  unfolding send settle
  flush_entry reason none r c = settle r.key (rejected reason) c
  flush_entry reason (some token) r c =
      if is_truthy token then send (with_token token r) c else settle r.key (rejected reason) c

  unfoldable pub flush : Reason → Option String → List Request → Client U → Client U
  unfolding flush_entry
  flush reason token [] c = c
  flush reason token (r ∷ rs) c = flush reason token rs (flush_entry reason token r c)

  unfoldable pub flush_queue : Reason → Option String → Client U → Client U
  unfolding flush
  flush_queue reason token c = record (flush reason token c.queue c) { queue = [] }

  -- `refreshAccessToken` up to its `await`: the store that it leaves, and the call.
  unfoldable pub refresh_access_token : AuthStore U → AuthStore U × RefreshCall
  unfolding clear_session
  refresh_access_token s = elim s.refresh_token [
    | none ↦ (clear_session s, doomed)
    | some token ↦ if is_truthy token then (s, posting token) else (clear_session s, doomed)
  ]

  -- The error handler of the response interceptor, up to its `await`.
  unfoldable pub on_error : Endpoints → Request → HttpError → Client U → Client U
  unfolding settle refresh_access_token
  on_error e r err c =
      if is_final e r err
      then settle r.key (rejected (http err)) c
      else (let original = record r { retried = true } in
          if c.is_refreshing
          then record c { queue = c.queue ++ (original ∷ []) }
          else (let (store, call) = refresh_access_token c.store in
              record c {
                store = store;
                is_refreshing = true;
                leaders = c.leaders ++ (record { original = original; call = call } ∷ []);
              }))

  -- The rest of the handler: the refresh gave tokens.
  unfoldable pub on_refreshed : Request → Tokens → Client U → Client U
  unfolding flush_queue send set_tokens
  on_refreshed original tokens c =
      let token = tokens.access_token in
      let stored = record c { store = set_tokens tokens c.store } in
      record (send (with_token token original) (flush_queue no_error (some token) stored)) {
        is_refreshing = false;
      }

  -- The rest of the handler: `refreshAccessToken` throws `reason`.
  unfoldable pub on_refresh_failed : Request → Reason → Client U → Client U
  unfolding flush_queue settle
  on_refresh_failed original reason c =
      record (settle original.key (rejected reason) (flush_queue reason none c)) {
        is_refreshing = false;
      }

  -- The answer to the refresh post, or the throw, comes back to the handler that waits for it.
  unfoldable pub refresh_gives : Tokens → List Leader → Client U → Client U
  unfolding on_refreshed
  refresh_gives tokens [] c = c
  refresh_gives tokens (l ∷ ls) c = elim l.call [
    | doomed ↦ c
    | posting token ↦ on_refreshed l.original tokens (record c { leaders = ls })
  ]

  unfoldable pub refresh_throws : HttpError → List Leader → Client U → Client U
  unfolding on_refresh_failed clear_session
  refresh_throws err [] c = c
  refresh_throws err (l ∷ ls) c = elim l.call [
    | doomed ↦ on_refresh_failed l.original no_refresh_token (record c { leaders = ls })
    | posting token ↦
        on_refresh_failed l.original (http err)
          (record c { leaders = ls; store = clear_session c.store })
  ]

  unfoldable pub answer :
      (Request → Client U → Client U) → Option (Request × List Request) → Client U → Client U
  answer handle none c = c
  answer handle (some (r, rest)) c = handle r (record c { flying = rest })

  unfoldable pub step : Endpoints → Client U → Event U → Client U
  unfolding send settle on_error refresh_gives refresh_throws answer take_request
  step e c (calls key url) =
      send (record { key = key; url = url; authorization = none; retried = false }) c
  step e c (succeeds key) = answer (λ r. settle r.key resolved) (take_request key c.flying) c
  step e c (fails key err) = answer (λ r. on_error e r err) (take_request key c.flying) c
  step e c (gives tokens) = refresh_gives tokens c.leaders c
  step e c (throws err) = refresh_throws err c.leaders c
  step e c (writes f) = record c { store = f c.store }

  unfoldable pub run : Endpoints → Client U → List (Event U) → Client U
  run e c [] = c
  run e c (ev ∷ evs) = run e (step e c ev) evs
