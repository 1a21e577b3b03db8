-- ===== src/Client/Refresh.antt =====
-- One refresh at a time, and what its end does to the requests that waited for it.
use why_not_grace_pos.Prelude.{
  ◌≡◌, refl, ap, true, false, none, some, List, [], ◌∷◌, arith, inl, inr, Option-cases, length,
  length-append, every, every-append, if◌then◌else◌,
}
use why_not_grace_pos.Auth.{AuthStore, Tokens, set_tokens, clear_session}
use why_not_grace_pos.Request.{
  Request, HttpError, Reason, no_error, no_refresh_token, http, Endpoints, take_request,
}
use why_not_grace_pos.Client.{
  Client, Leader, Event, calls, succeeds, fails, gives, throws, writes, fresh_client, send, settle,
  flush_queue, refresh_access_token, on_error, on_refreshed, on_refresh_failed, refresh_gives,
  refresh_throws, answer, step, run,
}
use why_not_grace_pos.Client.Settling.{flush-SameDesk}

module _ {U : Type 0} where
  -- A refresh runs exactly while `isRefreshing` is set, there is one at most, requests queue only
  -- behind one, and whatever waits for one is marked as retried.
  pub record IsOrderly (c : Client U) : Type 0 where
    pub single : length c.leaders ≡ (if c.is_refreshing then 1 else 0)
    pub queue_waits : c.is_refreshing ≡ false → c.queue ≡ []
    pub queue_marked : every (λ r. r.retried) c.queue ≡ true
    pub leaders_marked : every (λ l. l.original.retried) c.leaders ≡ true

  on_error-IsOrderly :
      (e : Endpoints) (r : Request) (err : HttpError) (c : Client U)
      → IsOrderly c
      → IsOrderly (on_error e r err c)
  unfolding on_error
  on_error-IsOrderly e r err c v =
      let original : Request = record r { retried = true } in
      ground (
        arith,
        every-append (λ (q : Request). q.retried) c.queue (original ∷ []),
        length-append c.leaders
            (record { original = original; call = (refresh_access_token c.store).1 } ∷ []),
        every-append (λ (l : Leader). l.original.retried) c.leaders
            (record { original = original; call = (refresh_access_token c.store).1 } ∷ []),
      )

  on_refreshed-IsOrderly :
      (r : Request) (tokens : Tokens) (c : Client U)
      → c.leaders ≡ []
      → IsOrderly (on_refreshed r tokens c)
  unfolding on_refreshed flush_queue send
  on_refreshed-IsOrderly r tokens c h = ground (
    arith,
    flush-SameDesk no_error (some tokens.access_token) c.queue
        (record c { store = set_tokens tokens c.store }),
  )

  on_refresh_failed-IsOrderly :
      (r : Request) (reason : Reason) (c : Client U)
      → c.leaders ≡ []
      → IsOrderly (on_refresh_failed r reason c)
  unfolding on_refresh_failed flush_queue settle
  on_refresh_failed-IsOrderly r reason c h = ground (arith, flush-SameDesk reason none c.queue c)

  -- With one leader at most, none is left behind the first.
  alone :
      (c : Client U) (l : Leader) (ls : List Leader) → IsOrderly c → c.leaders ≡ l ∷ ls → ls ≡ []
  alone c l [] v h = refl
  alone c l (m ∷ ls) v h = absurd (ground (arith, v.single, ap length h))

  refresh_gives-IsOrderly :
      (tokens : Tokens) (ls : List Leader) (c : Client U)
      → c.leaders ≡ ls
      → IsOrderly c
      → IsOrderly (refresh_gives tokens ls c)
  unfolding refresh_gives
  refresh_gives-IsOrderly tokens [] c h v = v
  refresh_gives-IsOrderly tokens (l ∷ ls) c h v = ground (
    arith,
    alone c l ls v h,
    on_refreshed-IsOrderly l.original tokens (record c { leaders = ls }),
  )

  refresh_throws-IsOrderly :
      (err : HttpError) (ls : List Leader) (c : Client U)
      → c.leaders ≡ ls
      → IsOrderly c
      → IsOrderly (refresh_throws err ls c)
  unfolding refresh_throws
  refresh_throws-IsOrderly err [] c h v = v
  refresh_throws-IsOrderly err (l ∷ ls) c h v = ground (
    arith,
    alone c l ls v h,
    on_refresh_failed-IsOrderly l.original no_refresh_token (record c { leaders = ls }),
    on_refresh_failed-IsOrderly l.original (http err)
        (record c { leaders = ls; store = clear_session c.store }),
  )

  -- Every event keeps the client orderly.
  pub step-IsOrderly :
      (e : Endpoints) (c : Client U) (ev : Event U) → IsOrderly c → IsOrderly (step e c ev)
  unfolding step
  step-IsOrderly e c (calls key url) v = ground arith
  step-IsOrderly e c (succeeds key) v = elim (Option-cases (take_request key c.flying)) [
    | inl h ↦ rw (h, answer) v
    | inr ((r, rest), h) ↦ rw (h, answer) (ground arith)
  ]
  step-IsOrderly e c (fails key err) v = elim (Option-cases (take_request key c.flying)) [
    | inl h ↦ rw (h, answer) v
    | inr ((r, rest), h) ↦
        rw (h, answer) (on_error-IsOrderly e r err (record c { flying = rest }) (ground arith))
  ]
  step-IsOrderly e c (gives tokens) v = refresh_gives-IsOrderly tokens c.leaders c refl v
  step-IsOrderly e c (throws err) v = refresh_throws-IsOrderly err c.leaders c refl v
  step-IsOrderly e c (writes f) v = ground arith

  run-IsOrderly :
      (e : Endpoints) (c : Client U) (evs : List (Event U)) → IsOrderly c → IsOrderly (run e c evs)
  unfolding run
  run-IsOrderly e c [] v = v
  run-IsOrderly e c (ev ∷ evs) v = run-IsOrderly e (step e c ev) evs (step-IsOrderly e c ev v)

  pub fresh_client-IsOrderly : (s : AuthStore U) → IsOrderly (fresh_client s)
  fresh_client-IsOrderly s = ground arith

  -- After any history of a freshly loaded client, at most one refresh call is under way, it is
  -- exactly while `isRefreshing` is set, requests are queued only then, and every request that
  -- waits for it is marked as retried.
  pub run_fresh-IsOrderly :
      (e : Endpoints) (s : AuthStore U) (evs : List (Event U))
      → IsOrderly (run e (fresh_client s) evs)
  run_fresh-IsOrderly e s evs = run-IsOrderly e (fresh_client s) evs (fresh_client-IsOrderly s)
