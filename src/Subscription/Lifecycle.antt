-- ===== src/Subscription/Lifecycle.antt =====
-- The panel and the service together: the panel shows the stored status, and each request is
-- answered before the next button is pressed.
use why_not_grace_pos.Prelude.{
  ℕ, String, Bool, true, false, not, ◌≡◌, refl, inl, inr, Option, none, some, List, [], ◌∷◌, Number,
  Bool-cases, if◌then◌else◌, arith,
}
use why_not_grace_pos.Subscription.{
  PlanStatus, PlanCall, provisions, renews, suspends, cancels, SubscriptionPanel, shows_provision,
  shows_suspend, handle_provision, handle_renew, PlanButton, sets_plan, renews_plan, suspends_plan,
  cancels_plan, has_button, press,
}
use why_not_grace_pos.Subscription.Backend.{
  StoredPlan, Reply, unprocessable, not_found, answers, shown_status, apply_lazy_status,
  provision_plan, renew_plan, suspend_plan, is_cancelled, cancel_plan, is_valid_call, handled,
  answer,
}

-- `missed` tells whether a request was refused for want of a plan.
pub record PlanWorld : Type 0 where
  pub panel : SubscriptionPanel
  pub stored : Option StoredPlan
  pub missed : Bool

-- A button at a time, a read of the plan with the two tests of the clock, and the fields as typed.
pub data PlanEvent : Type 0 where
  presses : ℕ → PlanButton → PlanEvent
  reads : Bool → Bool → PlanEvent
  types_fields : SubscriptionPanel → PlanEvent

-- A refusal leaves the plan as it is.
abbrev pub settled : Reply → PlanWorld → PlanWorld
settled unprocessable w = w
settled not_found w = record w { missed = true }
settled (answers s) w = record w { stored = some s }

module _ {ℓ} {N : Type ℓ} ⦃n : Number N⦄ (is_finite is_whole : N → Bool) where
  abbrev pub delivered : ℕ → Option (PlanCall N) → PlanWorld → PlanWorld
  delivered now none w = w
  delivered now (some call) w = settled (answer is_finite is_whole now call w.stored) w

abbrev pub read_plan : Bool → Bool → Option StoredPlan → Option StoredPlan
read_plan past_grace past_end none = none
read_plan past_grace past_end (some s) = some (apply_lazy_status past_grace past_end s)

module _ {ℓ} {N : Type ℓ} ⦃n : Number N⦄ (is_finite is_whole : N → Bool)
    (number_of : String → N) where
  unfoldable pub plan_step : PlanWorld → PlanEvent → PlanWorld
  unfolding press has_button
  plan_step w (presses now b) =
      if has_button (shown_status w.stored) b
      then delivered is_finite is_whole now (press number_of b w.panel).1
          (record w { panel = (press number_of b w.panel).0 })
      else w
  plan_step w (reads past_grace past_end) = record w {
    stored = read_plan past_grace past_end w.stored;
  }
  plan_step w (types_fields p) = record w { panel = p }

  unfoldable pub plan_run : PlanWorld → List PlanEvent → PlanWorld
  unfolding plan_step
  plan_run w [] = w
  plan_run w (e ∷ es) = plan_run (plan_step w e) es

-- A plan has a time of cancellation exactly while it is cancelled.
abbrev pub is_dated : Option ℕ → Bool
is_dated none = false
is_dated (some t) = true

abbrev pub is_consistent : Option StoredPlan → Bool
is_consistent none = true
is_consistent (some s) =
    if is_cancelled s.status then is_dated s.cancelled_at else not (is_dated s.cancelled_at)

abbrev pub IsConsistent : PlanWorld → Type 0
IsConsistent w = (is_consistent w.stored ≡ true) × (w.missed ≡ false)

-- A call that the status allows.
abbrev is_allowed {ℓ} : {N : Type ℓ} → PlanStatus → Option (PlanCall N) → Bool
is_allowed s none = true
is_allowed s (some (provisions r)) = true
is_allowed s (some (renews m)) = not (shows_provision s)
is_allowed s (some suspends) = not (shows_provision s)
is_allowed s (some cancels) = not (shows_provision s)

running-is_cancelled : (s : PlanStatus) → not (shows_provision s) ≡ true → is_cancelled s ≡ false
unfolding shows_provision
running-is_cancelled s h = ground arith

-- What the service makes of an allowed call: a consistent plan.
handled-is_consistent {ℓ} :
    {N : Type ℓ} ⦃n : Number N⦄ (is_finite is_whole : N → Bool) (now : ℕ) (call : PlanCall N)
    (stored : Option StoredPlan)
    → is_allowed (shown_status stored) (some call) ≡ true
    → is_consistent stored ≡ true
    → (s : StoredPlan) × (handled is_finite is_whole now call stored ≡ some s)
      × (is_consistent (some s) ≡ true)
unfolding shown_status shows_provision provision_plan renew_plan suspend_plan cancel_plan
handled-is_consistent f i now (provisions r) none a h = (_, refl, refl)
handled-is_consistent f i now (provisions r) (some s) a h = (_, refl, refl)
handled-is_consistent f i now (renews m) none a h = absurd (ground arith)
handled-is_consistent f i now (renews m) (some s) a h =
    (_, refl, ground (arith, running-is_cancelled s.status))
handled-is_consistent f i now suspends none a h = absurd (ground arith)
handled-is_consistent f i now suspends (some s) a h =
    (_, refl, ground (arith, running-is_cancelled s.status))
handled-is_consistent f i now cancels none a h = absurd (ground arith)
handled-is_consistent f i now cancels (some s) a h =
    rw (running-is_cancelled s.status a) (_, refl, refl)

delivered-IsConsistent {ℓ} :
    {N : Type ℓ} ⦃n : Number N⦄ (is_finite is_whole : N → Bool) (now : ℕ)
    (call : Option (PlanCall N)) (w : PlanWorld)
    → is_allowed (shown_status w.stored) call ≡ true
    → IsConsistent w
    → IsConsistent (delivered is_finite is_whole now call w)
unfolding answer
delivered-IsConsistent f i now none w a h = h
delivered-IsConsistent f i now (some call) w a (c, r) =
    let (s, e, k) = handled-is_consistent f i now call w.stored a c in
    elim (Bool-cases (is_valid_call f i call)) [ inl v ↦ rw (v, e) (k, r) | inr v ↦ rw (v) (c, r) ]

module _ {ℓ} {N : Type ℓ} ⦃n : Number N⦄ (is_finite is_whole : N → Bool)
    (number_of : String → N) where
  press-is_allowed :
      (s : PlanStatus) (b : PlanButton) (p : SubscriptionPanel)
      → has_button s b ≡ true
      → is_allowed s (press number_of b p).1 ≡ true
  unfolding has_button press handle_provision handle_renew shows_suspend shows_provision
  press-is_allowed s sets_plan p h = ground arith
  press-is_allowed s renews_plan p h = ground arith
  press-is_allowed s (suspends_plan true) p h = ground arith
  press-is_allowed s (suspends_plan false) p h = refl
  press-is_allowed s (cancels_plan true) p h = h
  press-is_allowed s (cancels_plan false) p h = refl

  read_plan-is_consistent :
      (past_grace past_end : Bool) (stored : Option StoredPlan)
      → is_consistent stored ≡ true
      → is_consistent (read_plan past_grace past_end stored) ≡ true
  unfolding apply_lazy_status
  read_plan-is_consistent g e none h = h
  read_plan-is_consistent g e (some s) h = ground arith

  plan_step-IsConsistent :
      (w : PlanWorld) (e : PlanEvent)
      → IsConsistent w
      → IsConsistent (plan_step is_finite is_whole number_of w e)
  unfolding plan_step
  plan_step-IsConsistent w (presses now b) h =
      elim (Bool-cases (has_button (shown_status w.stored) b)) [
        | inl k ↦ rw (k) (
            delivered-IsConsistent is_finite is_whole now (press number_of b w.panel).1
              (record w { panel = (press number_of b w.panel).0 })
              (press-is_allowed (shown_status w.stored) b w.panel k) h)
        | inr k ↦ rw (k) h
      ]
  plan_step-IsConsistent w (reads g e) (c, r) = (read_plan-is_consistent g e w.stored c, r)
  plan_step-IsConsistent w (types_fields p) h = h

  -- From a plan that has a time of cancellation exactly if it is cancelled, or from none, and while the
  -- panel shows the stored status: whatever is typed, pressed and read, in whichever order and at
  -- whatever times, this stays so, and no request is answered with 404 for want of a plan. Requests
  -- that the service finds invalid (422) are among them and change nothing.
  pub plan_run-IsConsistent :
      (w : PlanWorld) (es : List PlanEvent)
      → IsConsistent w
      → IsConsistent (plan_run is_finite is_whole number_of w es)
  unfolding plan_run
  plan_run-IsConsistent w [] h = h
  plan_run-IsConsistent w (e ∷ es) h =
      plan_run-IsConsistent (plan_step is_finite is_whole number_of w e) es
        (plan_step-IsConsistent w e h)
