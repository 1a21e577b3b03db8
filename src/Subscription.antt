-- ===== src/Subscription.antt =====
-- The plan of a business, as the platform's staff see it:
-- frontend/src/features/platform/components/SubscriptionPanel.tsx. The answer to `window.confirm` is
-- part of the event, and `Number(text)` an argument.
pub mod Backend
pub mod Lifecycle
pub mod Reactivation
mod Tests
use why_not_grace_pos.Prelude.{
  String, Bool, true, false, not, ◌&&◌, ◌||◌, Option, none, some, List, [], ◌∷◌, ◌++◌, Number,
  is_truthy, trim, if◌then◌else◌,
}

pub data PlanStatus : Type 0 where
  not_configured pending active grace suspended payment_failed cancelled expired : PlanStatus

pub record ProvisionRequest {ℓ} (N : Type ℓ) : Type ℓ where
  pub plan_name : String
  pub amount : N
  pub billing_interval : String
  pub months : N

pub data PlanCall {ℓ} (N : Type ℓ) : Type ℓ where
  provisions : ProvisionRequest N → PlanCall N
  renews : N → PlanCall N
  suspends cancels : PlanCall N

-- The fields, as they are typed, and the error.
pub record SubscriptionPanel : Type 0 where
  pub plan_name : String
  pub amount : String
  pub months : String
  pub renew_months : String
  pub error : Option String

abbrev pub new_panel : SubscriptionPanel
new_panel = record {
  plan_name = "POS Only";
  amount = "600";
  months = "1";
  renew_months = "1";
  error = none;
}

-- Whether the panel has the form of a new plan, in place of the buttons of a running one.
unfoldable pub shows_provision : PlanStatus → Bool
shows_provision not_configured = true
shows_provision cancelled = true
shows_provision _ = false

unfoldable pub shows_suspend : PlanStatus → Bool
unfolding shows_provision
shows_suspend suspended = false
shows_suspend s = not (shows_provision s)

module _ {ℓ} {N : Type ℓ} ⦃n : Number N⦄ (number_of : String → N) where
  unfoldable pub handle_provision : SubscriptionPanel → SubscriptionPanel × Option (PlanCall N)
  handle_provision p =
      if not (is_truthy (trim p.plan_name))
        || not (n.le (n.of_ℕ 0) (number_of p.amount))
        || not (n.le (n.of_ℕ 1) (number_of p.months))
      then (
        record p {
          error = some "Enter a plan name, an amount of 0 or more, and at least 1 month.";
        },
        none,
      )
      else (
        record p { error = none },
        some (
            provisions (record {
              plan_name = trim p.plan_name;
              amount = number_of p.amount;
              billing_interval = "monthly";
              months = number_of p.months;
            })),
      )

  unfoldable pub handle_renew : SubscriptionPanel → SubscriptionPanel × Option (PlanCall N)
  handle_renew p =
      if not (n.le (n.of_ℕ 1) (number_of p.renew_months))
      then (record p { error = some "Enter at least 1 month." }, none)
      else (record p { error = none }, some (renews (number_of p.renew_months)))

-- The buttons; one that asks first comes with what was answered.
pub data PlanButton : Type 0 where
  sets_plan renews_plan : PlanButton
  suspends_plan cancels_plan : Bool → PlanButton

-- Which buttons the panel has at a status.
unfoldable pub has_button : PlanStatus → PlanButton → Bool
unfolding shows_provision shows_suspend
has_button s sets_plan = shows_provision s
has_button s renews_plan = not (shows_provision s)
has_button s (suspends_plan confirmed) = shows_suspend s
has_button s (cancels_plan confirmed) = not (shows_provision s)

-- `handleSuspend` and `handleCancel`.
abbrev pub if_confirmed {ℓ} : {N : Type ℓ} → Bool → PlanCall N → Option (PlanCall N)
if_confirmed true call = some call
if_confirmed false call = none

module _ {ℓ} {N : Type ℓ} ⦃n : Number N⦄ (number_of : String → N) where
  unfoldable pub press : PlanButton → SubscriptionPanel → SubscriptionPanel × Option (PlanCall N)
  unfolding handle_provision handle_renew
  press sets_plan p = handle_provision number_of p
  press renews_plan p = handle_renew number_of p
  press (suspends_plan confirmed) p = (p, if_confirmed confirmed suspends)
  press (cancels_plan confirmed) p = (p, if_confirmed confirmed cancels)
