-- ===== src/Subscription/Backend.antt =====
-- What the service does with a plan: backend/app/services/subscription_service.py,
-- backend/app/api/platform/subscriptions.py and the schemas in backend/app/schemas/platform.py. Of a
-- stored plan, its status and the time of its cancellation; a plan that is missing (404) is none.
-- Where the clock stands is asked by two tests.
use why_not_grace_pos.Prelude.{
  ℕ, ◌+◌, leb, String, Bool, true, false, ◌&&◌, Option, none, some, Number, is_truthy,
  if◌then◌else◌,
}
use why_not_grace_pos.Subscription.{
  PlanStatus, not_configured, active, grace, suspended, cancelled, PlanCall, provisions, renews,
  suspends, cancels,
}

pub record StoredPlan : Type 0 where
  pub status : PlanStatus
  pub cancelled_at : Option ℕ

-- `to_out`: a business without a plan is not configured.
unfoldable pub shown_status : Option StoredPlan → PlanStatus
shown_status none = not_configured
shown_status (some s) = s.status

-- `_apply_lazy_status`: whether the clock is past the end of the grace period, and past
-- the plan's own; a plan without an end is past neither.
unfoldable pub apply_lazy_status : Bool → Bool → StoredPlan → StoredPlan
apply_lazy_status past_grace past_end s = lapse s.status
  where
    lapsed : StoredPlan
    lapsed =
        if past_grace
        then record s { status = suspended }
        else if past_end
        then record s { status = grace }
        else s

    lapse : PlanStatus → StoredPlan
    lapse active = lapsed
    lapse grace = lapsed
    lapse _ = s

unfoldable pub provision_plan : Option StoredPlan → StoredPlan
provision_plan none = record { status = active; cancelled_at = none }
provision_plan (some s) = record s { status = active; cancelled_at = none }

unfoldable pub renew_plan : Option StoredPlan → Option StoredPlan
renew_plan none = none
renew_plan (some s) = some (record s { status = active })

unfoldable pub suspend_plan : Option StoredPlan → Option StoredPlan
suspend_plan none = none
suspend_plan (some s) = some (record s { status = suspended })

abbrev pub is_cancelled : PlanStatus → Bool
is_cancelled cancelled = true
is_cancelled _ = false

unfoldable pub cancel_plan : ℕ → Option StoredPlan → Option StoredPlan
cancel_plan now none = none
cancel_plan now (some s) =
    if is_cancelled s.status
    then some s
    else some (record { status = cancelled; cancelled_at = some now })

-- Python's `len`, which counts characters.
unfoldable pub char_count : String → ℕ
char_count String.[] = 0
char_count (String.◌∷◌ c s) = 1 + char_count s

-- What a route answers: 422, 404 or the plan.
pub data Reply : Type 0 where
  unprocessable not_found : Reply
  answers : StoredPlan → Reply

abbrev pub reply_of : Option StoredPlan → Reply
reply_of none = not_found
reply_of (some s) = answers s

-- The fields of the schemas. Whether a number is finite, and so is no `null` in the request, and
-- whether it is whole are asked by two tests.
module _ {ℓ} {N : Type ℓ} ⦃n : Number N⦄ (is_finite is_whole : N → Bool) where
  unfoldable pub is_valid_months : N → Bool
  is_valid_months m = is_whole m && n.le (n.of_ℕ 1) m && n.le m (n.of_ℕ 60)

  unfoldable pub is_valid_call : PlanCall N → Bool
  unfolding is_valid_months
  is_valid_call (provisions r) =
      is_truthy r.plan_name
      && leb (char_count r.plan_name) 50
      && is_finite r.amount
      && n.le (n.of_ℕ 0) r.amount
      && leb (char_count r.billing_interval) 20
      && is_valid_months r.months
  is_valid_call (renews m) = is_valid_months m
  is_valid_call suspends = true
  is_valid_call cancels = true

  abbrev pub handled : ℕ → PlanCall N → Option StoredPlan → Option StoredPlan
  handled now (provisions request) s = some (provision_plan s)
  handled now (renews months) s = renew_plan s
  handled now suspends s = suspend_plan s
  handled now cancels s = cancel_plan now s

  -- The four routes.
  unfoldable pub answer : ℕ → PlanCall N → Option StoredPlan → Reply
  unfolding is_valid_call
  answer now call s = if is_valid_call call then reply_of (handled now call s) else unprocessable
