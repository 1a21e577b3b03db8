-- ===== src/Subscription/Reactivation.antt =====
-- The way back to an active plan.
use why_not_grace_pos.Prelude.{
  ℕ, String, Bool, true, false, ◌&&◌, ◌≡◌, refl, inl, inr, Option, none, some, Number, leb,
  Bool-cases, is_truthy, trim, if◌then◌else◌, arith,
}
use why_not_grace_pos.Subscription.{
  PlanStatus, active, SubscriptionPanel, shows_provision, handle_provision, handle_renew,
  PlanButton, sets_plan, renews_plan, has_button, press,
}
use why_not_grace_pos.Subscription.Backend.{
  StoredPlan, reply_of, shown_status, provision_plan, renew_plan, char_count, is_valid_months,
  is_valid_call, answer,
}
use why_not_grace_pos.Subscription.Lifecycle.{PlanWorld, presses, settled, delivered, plan_step}

-- The panel's first button.
abbrev pub first_button : PlanStatus → PlanButton
first_button s = if shows_provision s then sets_plan else renews_plan

provisioned : (stored : Option StoredPlan) → shown_status (some (provision_plan stored)) ≡ active
unfolding shown_status provision_plan
provisioned none = refl
provisioned (some s) = refl

renewed :
    (w v : PlanWorld)
    → w.stored ≡ v.stored
    → shows_provision (shown_status v.stored) ≡ false
    → shown_status (settled (reply_of (renew_plan v.stored)) w).stored ≡ active
unfolding shown_status renew_plan shows_provision
renewed w v e h = go v.stored h
  where
    go :
        (stored : Option StoredPlan)
        → shows_provision (shown_status stored) ≡ false
        → shown_status (settled (reply_of (renew_plan stored)) w).stored ≡ active
    go none h = absurd (ground arith)
    go (some s) h = refl

module _ {ℓ} {N : Type ℓ} ⦃n : Number N⦄ (is_finite is_whole : N → Bool)
    (number_of : String → N) where
  -- The fields are filled in with what the service takes.
  abbrev pub is_filled : SubscriptionPanel → Bool
  is_filled p =
      is_truthy (trim p.plan_name)
      && leb (char_count (trim p.plan_name)) 50
      && is_finite (number_of p.amount)
      && n.le (n.of_ℕ 0) (number_of p.amount)
      && is_valid_months is_finite is_whole (number_of p.months)
      && is_valid_months is_finite is_whole (number_of p.renew_months)

  provision-active :
      (now : ℕ) (w : PlanWorld)
      → is_filled w.panel ≡ true
      → shown_status
          (delivered is_finite is_whole now
            (handle_provision number_of w.panel).1
            (record w { panel = (handle_provision number_of w.panel).0 })).stored
        ≡ active
  unfolding handle_provision answer provision_plan shown_status is_valid_call is_valid_months
      char_count
  provision-active now w h =
      let t : is_truthy (trim w.panel.plan_name) ≡ true = ground arith in
      let a : n.le (n.of_ℕ 0) (number_of w.panel.amount) ≡ true = ground arith in
      let m : n.le (n.of_ℕ 1) (number_of w.panel.months) ≡ true = ground arith in
      let c : leb (char_count (trim w.panel.plan_name)) 50 ≡ true = ground arith in
      let f : is_finite (number_of w.panel.amount) ≡ true = ground arith in
      let i : is_whole (number_of w.panel.months) ≡ true = ground arith in
      let u : n.le (number_of w.panel.months) (n.of_ℕ 60) ≡ true = ground arith in
      rw (t, a, m, t, c, f, a, i, m, u) (provisioned w.stored)

  renew-active :
      (now : ℕ) (w : PlanWorld)
      → is_filled w.panel ≡ true
      → shows_provision (shown_status w.stored) ≡ false
      → shown_status
          (delivered is_finite is_whole now
            (handle_renew number_of w.panel).1
            (record w { panel = (handle_renew number_of w.panel).0 })).stored
        ≡ active
  unfolding handle_renew answer renew_plan shown_status shows_provision is_valid_call
      is_valid_months
  renew-active now w h k =
      let m : n.le (n.of_ℕ 1) (number_of w.panel.renew_months) ≡ true = ground arith in
      let i : is_whole (number_of w.panel.renew_months) ≡ true = ground arith in
      let u : n.le (number_of w.panel.renew_months) (n.of_ℕ 60) ≡ true = ground arith in
      rw (m, i, m, u) (renewed (record w { panel = record w.panel { error = none } }) w refl k)

  -- Whatever a plan's status is, and also without one, the panel has a button that makes it active in
  -- one press: Set plan if there is none or it was cancelled, Renew in every other case. The panel is
  -- taken to show the stored status, and the fields to be filled in with what the service takes: a
  -- plan's name of 1 to 50 characters, a finite amount of 0 or more, and in both fields for months a
  -- whole number from 1 to 60.
  pub plan_step-active :
      (now : ℕ) (w : PlanWorld)
      → is_filled w.panel ≡ true
      → (has_button (shown_status w.stored) (first_button (shown_status w.stored)) ≡ true)
        × (shown_status
              (plan_step is_finite is_whole number_of w
                (presses now (first_button (shown_status w.stored)))).stored
            ≡ active)
  unfolding plan_step has_button press
  plan_step-active now w h = elim (Bool-cases (shows_provision (shown_status w.stored))) [
    | inl e ↦ rw (e, e) (refl, provision-active now w h)
    | inr e ↦ rw (e, e) (refl, renew-active now w h e)
  ]
