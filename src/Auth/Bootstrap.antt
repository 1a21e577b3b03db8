-- ===== src/Auth/Bootstrap.antt =====
-- useAuthBootstrap.ts and usePlatformAuthBootstrap.ts: the silent refresh on a page load, with the
-- effect that may run many times and the one promise that all of its runs share.
use why_not_grace_pos.Prelude.{
  ℕ, zero, suc, String, Bool, true, false, Option, none, some, List, [], ◌∷◌, ◌++◌, ◌≡◌, refl, ap,
  ◌∙◌, arith, is_set, if◌then◌else◌,
}
use mathlib.Core.List.{append-nil}
use why_not_grace_pos.Auth.{AuthStore, Tokens, set_tokens, clear_session, set_hydrated}

-- `started` is `bootstrapPromise !== null`, `pending` the refresh call that has no answer yet, and
-- `posts` the refresh tokens that were sent to the backend, oldest first.
pub record Boot (U : Type 0) : Type 0 where
  pub store : AuthStore U
  pub started : Bool
  pub pending : Bool
  pub posts : List String

-- The effect runs, the refresh is answered (with no tokens if it failed), or other code writes to
-- the store.
pub data BootEvent (U : Type 0) : Type 0 where
  effect : BootEvent U
  answer : Option Tokens → BootEvent U
  writes : (AuthStore U → AuthStore U) → BootEvent U

-- The refresh tokens that a page load should send: the stored one, if there is one.
abbrev pub due : Option String → List String
due none = []
due (some token) = if is_set (some token) then token ∷ [] else []

module _ {U : Type 0} where
  abbrev pub on_load : AuthStore U → Boot U
  on_load s = record { store = s; started = false; pending = false; posts = [] }

  -- The body of the shared promise up to its `await`.
  unfoldable pub begin : Boot U → Option String → Boot U
  unfolding set_hydrated
  begin b none = record b { store = set_hydrated true b.store; started = true }
  begin b (some token) =
      if is_set (some token)
      then record b { started = true; pending = true; posts = b.posts ++ (token ∷ []) }
      else record b { store = set_hydrated true b.store; started = true }

  -- The effect. `??=` runs the right side only while there is no promise.
  unfoldable pub run_effect : Boot U → Boot U
  unfolding begin
  run_effect b =
      if b.store.hydrated then b else if b.started then b else begin b b.store.refresh_token

  -- The rest of the promise: the refresh gives new tokens, or fails.
  unfoldable pub finish : Option Tokens → Boot U → Boot U
  unfolding set_tokens clear_session set_hydrated
  finish (some tokens) b = record b {
    store = set_hydrated true (set_tokens tokens b.store);
    pending = false;
  }
  finish none b = record b { store = set_hydrated true (clear_session b.store); pending = false }

  unfoldable pub boot_step : Boot U → BootEvent U → Boot U
  unfolding run_effect finish
  boot_step b effect = run_effect b
  boot_step b (answer reply) = if b.pending then finish reply b else b
  boot_step b (writes f) = record b { store = f b.store }

  unfoldable pub boot_run : Boot U → List (BootEvent U) → Boot U
  boot_run b [] = b
  boot_run b (e ∷ es) = boot_run (boot_step b e) es

  boot_step_started :
      (b : Boot U) (e : BootEvent U)
      → b.started ≡ true
      → ((boot_step b e).started ≡ true) × ((boot_step b e).posts ≡ b.posts)
  unfolding boot_step
  boot_step_started b effect h = ground arith
  boot_step_started b (answer none) h = ground arith
  boot_step_started b (answer (some t)) h = ground arith
  boot_step_started b (writes f) h = ground arith

  -- Once the promise exists, nothing that happens makes a second call.
  boot_run_started :
      (b : Boot U) (es : List (BootEvent U)) → b.started ≡ true → (boot_run b es).posts ≡ b.posts
  unfolding boot_run
  boot_run_started b [] h = refl
  boot_run_started b (e ∷ es) h =
      let (kept, same) = boot_step_started b e h in boot_run_started (boot_step b e) es kept ∙ same

  begin-posts :
      (b : Boot U) (token : Option String)
      → b.posts ≡ []
      → ((begin b token).started ≡ true) × ((begin b token).posts ≡ due token)
  unfolding begin
  begin-posts b none h = ground arith
  begin-posts b (some token) h = ground arith

  -- From a page load on, once the effect has run, and however often it runs again, whatever the
  -- refresh call answers and whatever other code writes to the store in between, the stored refresh
  -- token has been sent exactly once, or, if none is stored, nothing was ever sent.
  pub boot_run-posts :
      (s : AuthStore U) (es : List (BootEvent U))
      → s.hydrated ≡ false
      → (boot_run (on_load s) (effect ∷ es)).posts ≡ due s.refresh_token
  unfolding boot_run
  boot_run-posts s es h =
      let (kept, sent) = begin-posts (on_load s) s.refresh_token refl in
      let same : boot_step (on_load s) effect ≡ begin (on_load s) s.refresh_token =
        unfold boot_step in ground arith in
      ap (λ b. (boot_run b es).posts) same
      ∙ boot_run_started (begin (on_load s) s.refresh_token) es kept
      ∙ sent

  abbrev pub effects : ℕ → List (BootEvent U)
  effects zero = []
  effects (suc n) = effect ∷ effects n

  -- What the store is once the refresh is answered.
  abbrev pub resumed : Option Tokens → AuthStore U → AuthStore U
  resumed (some tokens) s = set_hydrated true (set_tokens tokens s)
  resumed none s = set_hydrated true (clear_session s)

  -- Running the effect changes nothing while the answer is awaited, or once the store is ready.
  boot_run-effects :
      (b : Boot U) (n : ℕ) (es : List (BootEvent U))
      → run_effect b ≡ b
      → boot_run b (effects n ++ es) ≡ boot_run b es
  unfolding boot_run
  boot_run-effects b zero es h = refl
  boot_run-effects b (suc n) es h =
      let same : boot_step b effect ≡ b = unfold boot_step in h in
      ap (λ c. boot_run c (effects n ++ es)) same ∙ boot_run-effects b n es h

  -- The state while the answer is awaited, and the one that the answer leads to.
  abbrev waiting : AuthStore U → String → Boot U
  waiting s token = record { store = s; started = true; pending = true; posts = token ∷ [] }

  abbrev pub done : Option Tokens → AuthStore U → String → Boot U
  done reply s token = record {
    store = resumed reply s;
    started = true;
    pending = false;
    posts = token ∷ [];
  }

  first_effect :
      (s : AuthStore U) (token : String)
      → s.hydrated ≡ false
      → s.refresh_token ≡ some token
      → is_set (some token) ≡ true
      → boot_step (on_load s) effect ≡ waiting s token
  unfolding boot_step
  first_effect s token h e t = ground arith

  run_effect-waiting :
      (s : AuthStore U) (token : String)
      → s.hydrated ≡ false
      → run_effect (waiting s token) ≡ waiting s token
  unfolding run_effect
  run_effect-waiting s token h = ground arith

  boot_step-waiting :
      (s : AuthStore U) (token : String) (reply : Option Tokens)
      → boot_step (waiting s token) (answer reply) ≡ done reply s token
  unfolding boot_step
  boot_step-waiting s token none = refl
  boot_step-waiting s token (some t) = refl

  run_effect-done :
      (s : AuthStore U) (token : String) (reply : Option Tokens)
      → run_effect (done reply s token) ≡ done reply s token
  unfolding run_effect set_hydrated
  run_effect-done s token none = refl
  run_effect-done s token (some t) = refl

  -- With a refresh token stored, a page load ends ready and signed in with the new tokens if the
  -- refresh succeeds, and ready and signed out if it fails, with one call made, however many times
  -- the effect runs before and after the answer.
  pub boot_run_resumed :
      (s : AuthStore U) (token : String) (reply : Option Tokens) (n m : ℕ)
      → s.hydrated ≡ false
      → s.refresh_token ≡ some token
      → is_set (some token) ≡ true
      → boot_run (on_load s) (effects (suc n) ++ (answer reply ∷ effects m)) ≡ done reply s token
  unfolding boot_run
  boot_run_resumed s token reply n m h e t =
      let later = answer reply ∷ effects m in
      ap (λ b. boot_run b (effects n ++ later)) (first_effect s token h e t)
      ∙ boot_run-effects (waiting s token) n later (run_effect-waiting s token h)
      ∙ ap (λ b. boot_run b (effects m)) (boot_step-waiting s token reply)
      ∙ simp append-nil at
          (boot_run-effects (done reply s token) m [] (run_effect-done s token reply))
