-- ===== src/Live/Sockets.antt =====
-- The sockets of one session.
use why_not_grace_pos.Prelude.{
  ◌+◌, ◌≤◌, String, true, false, ◌≡◌, refl, ◌⊎◌, Option, some, List, [], ◌∷◌, ◌++◌, ◌∙◌, ap, arith,
}
use why_not_grace_pos.Live.{
  Live, LiveEvent, receives, closes, closed, fires, cleans, cleanup, live_step, live_run,
  start_live,
}

abbrev pub IsCleaned : Live → Type 0
IsCleaned s = (s.cancelled ≡ true) × (s.sockets ≡ 0) × (s.timers ≡ 0) × (s.closing ≤ 1)

-- Until the cleanup one socket is open or one timer is set that will open one, never both; after it
-- no socket is open, no timer is set, and at most one close event is to come.
abbrev pub IsAlive : Live → Type 0
IsAlive s = IsCleaned s ⊎ ((s.cancelled ≡ false) × (s.sockets + s.timers ≡ 1) × (s.closing ≡ 0))

live_step-IsAlive : (s : Live) (e : LiveEvent) → IsAlive s → IsAlive (live_step s e)
unfolding live_step
live_step-IsAlive s (receives frame) h = ground arith
live_step-IsAlive s closes h = ground arith
live_step-IsAlive s closed h = ground arith
live_step-IsAlive s fires h = ground arith
live_step-IsAlive s cleans h = ground arith

live_run-IsAlive : (s : Live) (es : List LiveEvent) → IsAlive s → IsAlive (live_run s es)
unfolding live_run
live_run-IsAlive s [] h = h
live_run-IsAlive s (e ∷ es) h = live_run-IsAlive (live_step s e) es (live_step-IsAlive s e h)

live_step-IsCleaned :
    (s : Live) (e : LiveEvent)
    → IsCleaned s
    → IsCleaned (live_step s e)
      × ((live_step s e).connected ≡ s.connected)
      × ((live_step s e).invalidated ≡ s.invalidated)
unfolding live_step
live_step-IsCleaned s (receives frame) h = ground arith
live_step-IsCleaned s closes h = ground arith
live_step-IsCleaned s closed h = ground arith
live_step-IsCleaned s fires h = ground arith
live_step-IsCleaned s cleans h = ground arith

live_run_cleaned :
    (s : Live) (es : List LiveEvent)
    → IsCleaned s
    → ((live_run s es).connected ≡ s.connected) × ((live_run s es).invalidated ≡ s.invalidated)
unfolding live_run
live_run_cleaned s [] h = (refl, refl)
live_run_cleaned s (e ∷ es) h =
    let step = live_step-IsCleaned s e h in
    let rest = live_run_cleaned (live_step s e) es step.0 in (rest.0 ∙ step.1, rest.1 ∙ step.2)

live_run_append :
    (s : Live) (es fs : List LiveEvent) → live_run s (es ++ fs) ≡ live_run (live_run s es) fs
unfolding live_run
live_run_append s [] fs = refl
live_run_append s (e ∷ es) fs = live_run_append (live_step s e) es fs

cleanup_lem : (s : Live) → IsAlive s → IsCleaned (cleanup s)
unfolding cleanup
cleanup_lem s h = ground arith

cleanup-same :
    (s : Live) → ((cleanup s).connected ≡ s.connected) × ((cleanup s).invalidated ≡ s.invalidated)
unfolding cleanup
cleanup-same s = (refl, refl)

after_cleanup :
    (s : Live) (es : List LiveEvent)
    → IsAlive s
    → ((live_run s (cleans ∷ es)).connected ≡ s.connected)
      × ((live_run s (cleans ∷ es)).invalidated ≡ s.invalidated)
unfolding live_run live_step
after_cleanup s es h =
    let rest = live_run_cleaned (cleanup s) es (cleanup_lem s h) in
    let same = cleanup-same s in (rest.0 ∙ same.0, rest.1 ∙ same.1)

-- Under an access token, whatever frames, closings, timers and cleanups came: until the cleanup
-- either one socket is open or one timer is set that will open one, never both, and after it no
-- socket is open, no timer is set and at most one close event is to come. And once the effect is then
-- cleaned up, no later event, the closed socket's own close event included, opens a socket or
-- invalidates a query.
pub live_run_started :
    (token : Option String) (s : Live) (es later : List LiveEvent)
    → start_live token ≡ some s
    → IsAlive (live_run s es)
      × ((live_run s (es ++ cleans ∷ later)).connected ≡ (live_run s es).connected)
      × ((live_run s (es ++ cleans ∷ later)).invalidated ≡ (live_run s es).invalidated)
unfolding start_live
live_run_started token s es later h =
    let alive = live_run-IsAlive s es (ground arith) in
    let rest = after_cleanup (live_run s es) later alive in
    (
      alive,
      ap (λ t. t.connected) (live_run_append s es (cleans ∷ later)) ∙ rest.0,
      ap (λ t. t.invalidated) (live_run_append s es (cleans ∷ later)) ∙ rest.1,
    )
