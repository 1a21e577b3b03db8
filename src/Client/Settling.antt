-- ===== src/Client/Settling.antt =====
-- No caller of the client is left without an answer, and none has two.
use why_not_grace_pos.Prelude.{
  ℕ, ◌+◌, String, Bool, true, false, ◌≡◌, refl, Option, none, some, List, [], ◌∷◌, arith, nat_eq,
  ap, inl, inr, Option-cases, tally, tally-append, if◌then◌else◌,
}
use why_not_grace_pos.Auth.{AuthStore, Tokens, set_tokens, clear_session}
use why_not_grace_pos.Request.{
  Request, Outcome, rejected, Reason, no_error, no_refresh_token, http, resolved, Endpoints,
  HttpError, take_request, with_token, authorize,
}
use why_not_grace_pos.Client.{
  Leader, Client, fresh_client, Event, calls, succeeds, fails, gives, throws, writes, send, settle,
  flush_entry, flush, flush_queue, refresh_access_token, on_error, on_refreshed, on_refresh_failed,
  answer, refresh_gives, refresh_throws, step, run,
}

abbrev pub has_key : ℕ → Request → Bool
has_key k r = nat_eq r.key k

abbrev pub leads : ℕ → Leader → Bool
leads k l = nat_eq l.original.key k

abbrev pub answers : ℕ → ℕ × Outcome → Bool
answers k s = nat_eq s.0 k

-- The interceptor changes the header alone.
pub authorize_frame :
    (t : Option String) (r : Request)
    → ((authorize t r).key ≡ r.key)
      × ((authorize t r).url ≡ r.url)
      × ((authorize t r).retried ≡ r.retried)
unfolding authorize
authorize_frame none r = (refl, refl, refl)
authorize_frame (some t) r = ground arith

-- A request is taken out of the list once.
pub take_request-tally :
    (p : Request → Bool) (key : ℕ) (rs : List Request) (r : Request) (rest : List Request)
    → take_request key rs ≡ some (r, rest)
    → tally p rs ≡ tally p rest + (if p r then 1 else 0)
unfolding take_request
take_request-tally p key [] r rest h = cc
take_request-tally p key (q ∷ rs) r rest h = elim (Option-cases (take_request key rs)) [
  | inl e ↦ ground arith
  | inr ((f, left), e) ↦ ground (arith, take_request-tally p key rs f left e)
]

module _ {U : Type 0} where
  -- How often a key stands in the client: awaiting an answer or a refresh, or settled.
  abbrev pub held : ℕ → Client U → ℕ
  held k c = tally (has_key k) c.flying + tally (has_key k) c.queue + tally (leads k) c.leaders

  abbrev located : ℕ → Client U → ℕ
  located k c = held k c + tally (answers k) c.settled

  send-located :
      (k : ℕ) (r : Request) (c : Client U)
      → located k (send r c) ≡ located k c + (if nat_eq r.key k then 1 else 0)
  unfolding send
  send-located k r c = ground (
    arith,
    authorize_frame c.store.access_token r,
    tally-append (has_key k) c.flying (authorize c.store.access_token r ∷ []),
  )

  settle-located :
      (k key : ℕ) (o : Outcome) (c : Client U)
      → located k (settle key o c) ≡ located k c + (if nat_eq key k then 1 else 0)
  unfolding settle
  settle-located k key o c = ground (arith, tally-append (answers k) c.settled ((key, o) ∷ []))

  flush_entry-located :
      (k : ℕ) (reason : Reason) (token : Option String) (r : Request) (c : Client U)
      → located k (flush_entry reason token r c) ≡ located k c + (if nat_eq r.key k then 1 else 0)
  unfolding flush_entry
  flush_entry-located k reason none r c = settle-located k r.key (rejected reason) c
  flush_entry-located k reason (some token) r c =
      ground
        (arith, send-located k (with_token token r) c, settle-located k r.key (rejected reason) c)

  -- What a flush leaves alone.
  pub record SameDesk (c d : Client U) : Type 0 where
    pub queue : d.queue ≡ c.queue
    pub leaders : d.leaders ≡ c.leaders
    pub is_refreshing : d.is_refreshing ≡ c.is_refreshing
    pub store : d.store ≡ c.store

  flush_entry-SameDesk :
      (reason : Reason) (token : Option String) (r : Request) (c : Client U)
      → SameDesk c (flush_entry reason token r c)
  unfolding flush_entry
  flush_entry-SameDesk reason none r c = ground arith
  flush_entry-SameDesk reason (some token) r c = ground arith

  pub flush-SameDesk :
      (reason : Reason) (token : Option String) (rs : List Request) (c : Client U)
      → SameDesk c (flush reason token rs c)
  unfolding flush
  flush-SameDesk reason token [] c = ground arith
  flush-SameDesk reason token (r ∷ rs) c = ground (
    arith,
    flush_entry-SameDesk reason token r c,
    flush-SameDesk reason token rs (flush_entry reason token r c),
  )

  flush-located :
      (k : ℕ) (reason : Reason) (token : Option String) (rs : List Request) (c : Client U)
      → located k (flush reason token rs c) ≡ located k c + tally (has_key k) rs
  unfolding flush
  flush-located k reason token [] c = omega arith
  flush-located k reason token (r ∷ rs) c = omega (
    arith,
    flush-located k reason token rs (flush_entry reason token r c),
    flush_entry-located k reason token r c,
  )

  flush_queue-located :
      (k : ℕ) (reason : Reason) (token : Option String) (c : Client U)
      → located k (flush_queue reason token c) ≡ located k c
  unfolding flush_queue
  flush_queue-located k reason token c =
      let same = flush-SameDesk reason token c.queue c in
      omega (arith, flush-located k reason token c.queue c, ap (tally (has_key k)) same.queue)

  on_error-located :
      (e : Endpoints) (k : ℕ) (r : Request) (err : HttpError) (c : Client U)
      → located k (on_error e r err c) ≡ located k c + (if nat_eq r.key k then 1 else 0)
  unfolding on_error
  on_error-located e k r err c = ground (
    arith,
    settle-located k r.key (rejected (http err)) c,
    tally-append (has_key k) c.queue (record r { retried = true } ∷ []),
    tally-append (leads k) c.leaders (
        record { original = record r { retried = true }; call = (refresh_access_token c.store).1 }
        ∷ []),
  )

  on_refreshed-located :
      (k : ℕ) (r : Request) (tokens : Tokens) (c : Client U)
      → located k (on_refreshed r tokens c) ≡ located k c + (if nat_eq r.key k then 1 else 0)
  unfolding on_refreshed
  on_refreshed-located k r tokens c =
      let token = tokens.access_token in
      let stored = record c { store = set_tokens tokens c.store } in
      omega (
        arith,
        send-located k (with_token token r) (flush_queue no_error (some token) stored),
        flush_queue-located k no_error (some token) stored,
      )

  on_refresh_failed-located :
      (k : ℕ) (r : Request) (reason : Reason) (c : Client U)
      → located k (on_refresh_failed r reason c) ≡ located k c + (if nat_eq r.key k then 1 else 0)
  unfolding on_refresh_failed
  on_refresh_failed-located k r reason c = omega (
    arith,
    settle-located k r.key (rejected reason) (flush_queue reason none c),
    flush_queue-located k reason none c,
  )

  answer-located :
      (k : ℕ) (handle : Request → Client U → Client U) (key : ℕ) (c : Client U)
      → ((r : Request) (d : Client U)
          → located k (handle r d) ≡ located k d + (if nat_eq r.key k then 1 else 0))
      → located k (answer handle (take_request key c.flying) c) ≡ located k c
  unfolding answer
  answer-located k handle key c h = elim (Option-cases (take_request key c.flying)) [
    | inl e ↦ rw (e, answer) refl
    | inr ((r, rest), e) ↦
        rw (e, answer)
          (omega (
            arith,
            h r (record c { flying = rest }),
            take_request-tally (has_key k) key c.flying r rest e,
          ))
  ]

  refresh_gives-located :
      (k : ℕ) (tokens : Tokens) (ls : List Leader) (c : Client U)
      → c.leaders ≡ ls
      → located k (refresh_gives tokens ls c) ≡ located k c
  unfolding refresh_gives
  refresh_gives-located k tokens [] c h = refl
  refresh_gives-located k tokens (l ∷ ls) c h = ground (
    arith,
    on_refreshed-located k l.original tokens (record c { leaders = ls }),
    ap (tally (leads k)) h,
  )

  refresh_throws-located :
      (k : ℕ) (err : HttpError) (ls : List Leader) (c : Client U)
      → c.leaders ≡ ls
      → located k (refresh_throws err ls c) ≡ located k c
  unfolding refresh_throws
  refresh_throws-located k err [] c h = refl
  refresh_throws-located k err (l ∷ ls) c h = ground (
    arith,
    on_refresh_failed-located k l.original no_refresh_token (record c { leaders = ls }),
    on_refresh_failed-located k l.original (http err)
        (record c { leaders = ls; store = clear_session c.store }),
    ap (tally (leads k)) h,
  )

  -- How often a key is started by a list of events.
  abbrev pub started : ℕ → List (Event U) → ℕ
  started k [] = 0
  started k (calls key url ∷ evs) = (if nat_eq key k then 1 else 0) + started k evs
  started k (_ ∷ evs) = started k evs

  step-located :
      (e : Endpoints) (k : ℕ) (c : Client U) (ev : Event U)
      → located k (step e c ev) ≡ located k c + started k (ev ∷ [])
  unfolding step
  step-located e k c (calls key url) = omega (
    arith,
    send-located k (record { key = key; url = url; authorization = none; retried = false }) c,
  )
  step-located e k c (succeeds key) = omega (
    arith,
    answer-located k (λ r. settle r.key resolved) key c (λ r d. settle-located k r.key resolved d),
  )
  step-located e k c (fails key err) =
      omega (
        arith,
        answer-located k (λ r. on_error e r err) key c (λ r d. on_error-located e k r err d),
      )
  step-located e k c (gives tokens) = omega (arith, refresh_gives-located k tokens c.leaders c refl)
  step-located e k c (throws err) = omega (arith, refresh_throws-located k err c.leaders c refl)
  step-located e k c (writes f) = omega arith

  run-located :
      (e : Endpoints) (k : ℕ) (c : Client U) (evs : List (Event U))
      → located k (run e c evs) ≡ located k c + started k evs
  unfolding run
  run-located e k c [] = omega arith
  run-located e k c (calls key url ∷ evs) =
      omega
        (arith, run-located e k (step e c (calls key url)) evs, step-located e k c (calls key url))
  run-located e k c (ev ∷ evs) =
      omega (arith, run-located e k (step e c ev) evs, step-located e k c ev)

  -- After any history of a freshly loaded client, every request that a caller started is found
  -- exactly once: waiting for the backend, queued behind a refresh, waiting for the refresh that it
  -- set off, or settled. So none is lost and no promise is settled twice.
  pub run-settles :
      (e : Endpoints) (k : ℕ) (s : AuthStore U) (evs : List (Event U))
      → let c = run e (fresh_client s) evs in held k c + tally (answers k) c.settled ≡ started k evs
  run-settles e k s evs = omega (arith, run-located e k (fresh_client s) evs)
