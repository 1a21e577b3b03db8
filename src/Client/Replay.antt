-- ===== src/Client/Replay.antt =====
-- What the end of a refresh does: `flushQueue` and the code after it.
use mathlib.Core.List.{append_assoc, append-nil, map-append}
use why_not_grace_pos.Prelude.{
  ℕ, ◌≡◌, refl, ◌∙◌, true, false, none, some, List, [], ◌∷◌, ◌++◌, map, arith, String, is_truthy,
}
use why_not_grace_pos.Auth.{AuthStore, Tokens, set_tokens, clear_session}
use why_not_grace_pos.Request.{
  Request, HttpError, Reason, no_error, no_refresh_token, http, Outcome, rejected, Endpoints,
  with_token,
}
use why_not_grace_pos.Client.{
  Client, Leader, RefreshCall, doomed, posting, gives, throws, send, settle, flush_entry, flush,
  flush_queue, on_refreshed, on_refresh_failed, refresh_gives, refresh_throws, step,
}

-- The requests under the new token, and the rejections.
abbrev pub replays : String → List Request → List Request
replays token = map (with_token token)

abbrev pub rejections : Reason → List Request → List (ℕ × Outcome)
rejections reason = map (λ r. (r.key, rejected reason))

-- What a refresh call that throws throws.
abbrev pub thrown : RefreshCall → HttpError → Reason
thrown doomed err = no_refresh_token
thrown (posting token) err = http err

module _ {U : Type 0} where
  -- The store after the throw: a failed post ends the session, and without a refresh token it was
  -- ended before.
  abbrev pub store_after : RefreshCall → AuthStore U → AuthStore U
  store_after doomed s = s
  store_after (posting token) s = clear_session s

  flush_sends :
      (token : String) (rs : List Request) (c : Client U)
      → is_truthy token ≡ true
      → c.store.access_token ≡ some token
      → flush no_error (some token) rs c
        ≡ record c { flying = c.flying ++ replays token rs; sent = c.sent ++ replays token rs }
  unfolding flush
  flush_sends token [] c t h = simp append-nil
  flush_sends token (r ∷ rs) c t h =
      let once : flush_entry no_error (some token) r c ≡ record c {
        flying = c.flying ++ (with_token token r ∷ []);
        sent = c.sent ++ (with_token token r ∷ []);
      } =
        unfold flush_entry in ground arith in
      rw once (
        flush_sends token rs
          (record c {
            flying = c.flying ++ (with_token token r ∷ []);
            sent = c.sent ++ (with_token token r ∷ []);
          })
          t h
        ∙ simp append_assoc)

  flush_rejects :
      (reason : Reason) (rs : List Request) (c : Client U)
      → flush reason none rs c ≡ record c { settled = c.settled ++ rejections reason rs }
  unfolding flush flush_entry settle
  flush_rejects reason [] c = simp append-nil
  flush_rejects reason (r ∷ rs) c =
      flush_rejects reason rs (settle r.key (rejected reason) c) ∙ simp append_assoc

  on_refreshed_sends :
      (r : Request) (tokens : Tokens) (c : Client U)
      → is_truthy tokens.access_token ≡ true
      → let d = on_refreshed r tokens c in
        (d.flying ≡ c.flying ++ replays tokens.access_token (c.queue ++ (r ∷ [])))
        × (d.settled ≡ c.settled)
        × (d.queue ≡ [])
        × (d.is_refreshing ≡ false)
        × (d.leaders ≡ c.leaders)
        × (d.store ≡ set_tokens tokens c.store)
  unfolding on_refreshed flush_queue send set_tokens
  on_refreshed_sends r tokens c t =
      let token = tokens.access_token in
      let stored = record c { store = set_tokens tokens c.store } in
      rw (flush_sends token c.queue stored t refl)
        (rw (t, map-append, append_assoc) refl, refl, refl, refl, refl, refl)

  on_refresh_failed_rejects :
      (r : Request) (reason : Reason) (c : Client U)
      → let d = on_refresh_failed r reason c in
        (d.settled ≡ c.settled ++ rejections reason (c.queue ++ (r ∷ [])))
        × (d.flying ≡ c.flying)
        × (d.queue ≡ [])
        × (d.is_refreshing ≡ false)
        × (d.leaders ≡ c.leaders)
        × (d.store ≡ c.store)
  unfolding on_refresh_failed flush_queue settle
  on_refresh_failed_rejects r reason c =
      rw (flush_rejects reason c.queue c)
        (rw (map-append, append_assoc) refl, refl, refl, refl, refl, refl)

  -- When the refresh gives a new access token that is not empty, every queued request and the one
  -- that set the refresh off are sent again, in their order and under the new token; no promise is
  -- settled by it, the queue and the refresh are over, and the store has the new tokens.
  pub step_gives :
      (e : Endpoints) (c : Client U) (l : Leader) (old : String) (tokens : Tokens)
      → c.leaders ≡ l ∷ []
      → l.call ≡ posting old
      → is_truthy tokens.access_token ≡ true
      → let d = step e c (gives tokens) in
        (d.flying ≡ c.flying ++ replays tokens.access_token (c.queue ++ (l.original ∷ [])))
        × (d.settled ≡ c.settled)
        × (d.queue ≡ [])
        × (d.is_refreshing ≡ false)
        × (d.leaders ≡ [])
        × (d.store ≡ set_tokens tokens c.store)
  unfolding step refresh_gives
  step_gives e c l old tokens one call t =
      let same : step e c (gives tokens)
          ≡ on_refreshed l.original tokens (record c { leaders = [] }) =
        rw (one, refresh_gives, call) refl in
      rw same (on_refreshed_sends l.original tokens (record c { leaders = [] }) t)

  refresh_throws_rejects :
      (r : Request) (call : RefreshCall) (err : HttpError) (c : Client U)
      → let d = refresh_throws err (record { original = r; call = call } ∷ []) c in
        (d.settled ≡ c.settled ++ rejections (thrown call err) (c.queue ++ (r ∷ [])))
        × (d.flying ≡ c.flying)
        × (d.queue ≡ [])
        × (d.is_refreshing ≡ false)
        × (d.leaders ≡ [])
        × (d.store ≡ store_after call c.store)
  unfolding refresh_throws
  refresh_throws_rejects r doomed err c =
      on_refresh_failed_rejects r no_refresh_token (record c { leaders = [] })
  refresh_throws_rejects r (posting token) err c =
      on_refresh_failed_rejects r (http err)
        (record c { leaders = []; store = clear_session c.store })

  -- When the refresh throws, or there was no refresh token to send, every queued request and the
  -- one that set the refresh off are rejected with that error, in their order; nothing is sent, the
  -- queue and the refresh are over, and a failed post leaves the session cleared.
  pub step_throws :
      (e : Endpoints) (c : Client U) (l : Leader) (err : HttpError)
      → c.leaders ≡ l ∷ []
      → let d = step e c (throws err) in
        (d.settled ≡ c.settled ++ rejections (thrown l.call err) (c.queue ++ (l.original ∷ [])))
        × (d.flying ≡ c.flying)
        × (d.queue ≡ [])
        × (d.is_refreshing ≡ false)
        × (d.leaders ≡ [])
        × (d.store ≡ store_after l.call c.store)
  unfolding step refresh_throws
  step_throws e c l err one = rw one (refresh_throws_rejects l.original l.call err c)
