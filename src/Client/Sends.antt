-- ===== src/Client/Sends.antt =====
-- How often the client sends one request.
use why_not_grace_pos.Prelude.{
  ℕ, ◌+◌, ◌*◌, ◌≤◌, ◌≡◌, refl, ap, String, Bool, true, false, not, ◌&&◌, Option, none, some, List,
  [], ◌∷◌, arith, inl, inr, Option-cases, nat_eq, tally, tally-append, every, if◌then◌else◌,
}
use why_not_grace_pos.Auth.{AuthStore, Tokens, set_tokens, clear_session}
use why_not_grace_pos.Request.{
  Request, HttpError, Reason, no_error, no_refresh_token, http, Endpoints, with_token, authorize,
  is_final, take_request,
}
use why_not_grace_pos.Client.{
  Client, Leader, Event, calls, succeeds, fails, gives, throws, writes, fresh_client, send, settle,
  flush_entry, flush, flush_queue, refresh_access_token, on_error, on_refreshed, on_refresh_failed,
  refresh_gives, refresh_throws, answer, step, run,
}
use why_not_grace_pos.Client.Settling.{
  authorize_frame, leads, flush-SameDesk, has_key, take_request-tally, started,
}
use why_not_grace_pos.Client.Refresh.{IsOrderly, step-IsOrderly, fresh_client-IsOrderly}

-- A request with the key that may still be sent again: it is not marked as retried.
abbrev is_new : ℕ → Request → Bool
is_new k r = nat_eq r.key k && not r.retried

module _ {U : Type 0} where
  -- What was sent, and what may still be sent again.
  abbrev spent : ℕ → Client U → ℕ
  spent k c = tally (has_key k) c.sent + tally (is_new k) c.flying

  abbrev budget : ℕ → Client U → ℕ
  budget k c = spent k c + tally (has_key k) c.queue + tally (leads k) c.leaders

  send-spent :
      (k : ℕ) (r : Request) (c : Client U)
      → spent k (send r c)
        ≡ spent k c + (if nat_eq r.key k then (if r.retried then 1 else 2) else 0)
  unfolding send
  send-spent k r c = ground (
    arith,
    authorize_frame c.store.access_token r,
    tally-append (has_key k) c.sent (authorize c.store.access_token r ∷ []),
    tally-append (is_new k) c.flying (authorize c.store.access_token r ∷ []),
  )

  flush_entry-spent :
      (k : ℕ) (reason : Reason) (token : Option String) (r : Request) (c : Client U)
      → r.retried ≡ true
      → spent k (flush_entry reason token r c) ≤ spent k c + (if nat_eq r.key k then 1 else 0)
  unfolding flush_entry settle
  flush_entry-spent k reason none r c m = omega arith
  flush_entry-spent k reason (some token) r c m =
      ground (arith, send-spent k (with_token token r) c)

  flush-spent :
      (k : ℕ) (reason : Reason) (token : Option String) (rs : List Request) (c : Client U)
      → every (λ r. r.retried) rs ≡ true
      → spent k (flush reason token rs c) ≤ spent k c + tally (has_key k) rs
  unfolding flush
  flush-spent k reason token [] c m = omega arith
  flush-spent k reason token (r ∷ rs) c m = ground (
    arith,
    flush-spent k reason token rs (flush_entry reason token r c),
    flush_entry-spent k reason token r c,
  )

  on_error-budget :
      (e : Endpoints) (k : ℕ) (r : Request) (err : HttpError) (c : Client U)
      → budget k (on_error e r err c) ≤ budget k c + (if is_new k r then 1 else 0)
  unfolding on_error settle is_final
  on_error-budget e k r err c = ground (
    arith,
    tally-append (has_key k) c.queue (record r { retried = true } ∷ []),
    tally-append (leads k) c.leaders (
        record { original = record r { retried = true }; call = (refresh_access_token c.store).1 }
        ∷ []),
  )

  on_refreshed-budget :
      (k : ℕ) (r : Request) (tokens : Tokens) (c : Client U)
      → r.retried ≡ true
      → every (λ q. q.retried) c.queue ≡ true
      → budget k (on_refreshed r tokens c) ≤ budget k c + (if nat_eq r.key k then 1 else 0)
  unfolding on_refreshed flush_queue
  on_refreshed-budget k r tokens c m ms =
      let token = tokens.access_token in
      let stored = record c { store = set_tokens tokens c.store } in
      let same = flush-SameDesk no_error (some token) c.queue stored in
      ground (
        arith,
        send-spent k (with_token token r) (flush_queue no_error (some token) stored),
        flush-spent k no_error (some token) c.queue stored ms,
        same,
      )

  on_refresh_failed-budget :
      (k : ℕ) (r : Request) (reason : Reason) (c : Client U)
      → every (λ q. q.retried) c.queue ≡ true
      → budget k (on_refresh_failed r reason c) ≤ budget k c
  unfolding on_refresh_failed flush_queue settle
  on_refresh_failed-budget k r reason c ms =
      let same = flush-SameDesk reason none c.queue c in
      ground (arith, flush-spent k reason none c.queue c ms, same)

  refresh_gives-budget :
      (k : ℕ) (tokens : Tokens) (ls : List Leader) (c : Client U)
      → c.leaders ≡ ls
      → IsOrderly c
      → budget k (refresh_gives tokens ls c) ≤ budget k c
  unfolding refresh_gives
  refresh_gives-budget k tokens [] c h v = omega arith
  refresh_gives-budget k tokens (l ∷ ls) c h v = ground (
    arith,
    on_refreshed-budget k l.original tokens (record c { leaders = ls }),
    v.leaders_marked,
    v.queue_marked,
    ap (every (λ (q : Leader). q.original.retried)) h,
    ap (tally (leads k)) h,
  )

  refresh_throws-budget :
      (k : ℕ) (err : HttpError) (ls : List Leader) (c : Client U)
      → c.leaders ≡ ls
      → IsOrderly c
      → budget k (refresh_throws err ls c) ≤ budget k c
  unfolding refresh_throws
  refresh_throws-budget k err [] c h v = omega arith
  refresh_throws-budget k err (l ∷ ls) c h v = ground (
    arith,
    on_refresh_failed-budget k l.original no_refresh_token (record c { leaders = ls }),
    on_refresh_failed-budget k l.original (http err)
        (record c { leaders = ls; store = clear_session c.store }),
    v.queue_marked,
    ap (tally (leads k)) h,
  )

  step-budget :
      (e : Endpoints) (k : ℕ) (c : Client U) (ev : Event U)
      → IsOrderly c
      → budget k (step e c ev) ≤ budget k c + 2 * started k (ev ∷ [])
  unfolding step
  step-budget e k c (calls key url) v = ground (
    arith,
    send-spent k (record { key = key; url = url; authorization = none; retried = false }) c,
  )
  step-budget e k c (succeeds key) v = elim (Option-cases (take_request key c.flying)) [
    | inl h ↦ rw (h, answer) (omega arith)
    | inr ((r, rest), h) ↦
        rw (h, answer)
          (unfold settle in omega (arith, take_request-tally (is_new k) key c.flying r rest h))
  ]
  step-budget e k c (fails key err) v = elim (Option-cases (take_request key c.flying)) [
    | inl h ↦ rw (h, answer) (omega arith)
    | inr ((r, rest), h) ↦
        rw (h, answer)
          (omega (
            arith,
            on_error-budget e k r err (record c { flying = rest }),
            take_request-tally (is_new k) key c.flying r rest h,
          ))
  ]
  step-budget e k c (gives tokens) v =
      omega (arith, refresh_gives-budget k tokens c.leaders c refl v)
  step-budget e k c (throws err) v = omega (arith, refresh_throws-budget k err c.leaders c refl v)
  step-budget e k c (writes f) v = omega arith

  run-budget :
      (e : Endpoints) (k : ℕ) (c : Client U) (evs : List (Event U))
      → IsOrderly c
      → budget k (run e c evs) ≤ budget k c + 2 * started k evs
  unfolding run
  run-budget e k c [] v = omega arith
  run-budget e k c (calls key url ∷ evs) v =
      let ev : Event U = calls key url in
      omega
        (arith, run-budget e k (step e c ev) evs (step-IsOrderly e c ev v), step-budget e k c ev v)
  run-budget e k c (ev ∷ evs) v =
      omega
        (arith, run-budget e k (step e c ev) evs (step-IsOrderly e c ev v), step-budget e k c ev v)

  -- Over any history of a freshly loaded client, whatever the backend answers and however often it
  -- says 401, a request is sent at most twice for each time that a caller started it.
  pub run-sends_le :
      (e : Endpoints) (k : ℕ) (s : AuthStore U) (evs : List (Event U))
      → tally (has_key k) (run e (fresh_client s) evs).sent ≤ 2 * started k evs
  run-sends_le e k s evs =
      omega (arith, run-budget e k (fresh_client s) evs (fresh_client-IsOrderly s))
