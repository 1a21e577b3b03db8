-- ===== src/Subscription/Tests.antt =====
-- The theorems about a business's plan at concrete plans.
use why_not_grace_pos.Prelude.{
  ℕ, Bool, true, false, ◌≡◌, refl, none, some, List, [], ◌∷◌, trim, whole_Number,
}
use why_not_grace_pos.Prelude.Tallies.{tally_of}
use why_not_grace_pos.Subscription.{
  active, suspended, cancelled, new_panel, has_button, sets_plan, renews_plan, suspends_plan,
  cancels_plan, SubscriptionPanel,
}
use why_not_grace_pos.Subscription.Backend.{
  shown_status, answer, apply_lazy_status, char_count, provision_plan, renew_plan, suspend_plan,
  cancel_plan, is_valid_months,
}
use why_not_grace_pos.Subscription.Lifecycle.{
  PlanWorld, PlanEvent, presses, reads, plan_step, plan_run, IsConsistent, plan_run-IsConsistent,
}
use why_not_grace_pos.Subscription.Reactivation.{first_button, plan_step-active}

abbrev finite : ℕ → Bool
finite n = true

abbrev whole : ℕ → Bool
whole n = true

abbrev fields : SubscriptionPanel
fields = record new_panel { amount = "|||"; months = "||"; renew_months = "|||" }

-- A plan that was suspended when its grace period was over.
abbrev lapsed : PlanWorld
lapsed = record {
  panel = fields;
  stored = some (record { status = suspended; cancelled_at = none });
  missed = false;
}

abbrev unplanned : PlanWorld
unplanned = record { panel = fields; stored = none; missed = false }

abbrev year : List PlanEvent
year =
    presses 1 sets_plan
    ∷ reads false true
    ∷ presses 2 renews_plan
    ∷ presses 3 (suspends_plan true)
    ∷ presses 4 (cancels_plan false)
    ∷ presses 5 (cancels_plan true)
    ∷ presses 6 renews_plan
    ∷ []

cancelled_at_5 :
    (plan_run finite whole tally_of unplanned year).stored
    ≡ some (record { status = cancelled; cancelled_at = some 5 })
unfolding plan_run shown_status trim answer apply_lazy_status char_count provision_plan renew_plan
    suspend_plan cancel_plan
cancelled_at_5 = refl

plan_run-IsConsistent_example : IsConsistent (plan_run finite whole tally_of unplanned year)
plan_run-IsConsistent_example =
    plan_run-IsConsistent finite whole tally_of unplanned year (refl, refl)

plan_step-active_example :
    (has_button (shown_status lapsed.stored) (first_button (shown_status lapsed.stored)) ≡ true)
    × (shown_status
          (plan_step finite whole tally_of lapsed
            (presses 7 (first_button (shown_status lapsed.stored)))).stored
        ≡ active)
unfolding trim char_count is_valid_months
plan_step-active_example = plan_step-active finite whole tally_of 7 lapsed refl
