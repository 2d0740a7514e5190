-- ===== src/Plans/Dialog.antt =====
-- The paywall: apps/web/app/components/PlanLimitDialog.tsx. Its state, what raises and closes it, and
-- what it offers; the layout is not modelled.
use kall.Common.{
  ℕ, ◌<◌, String, ◌≡◌, refl, ◌⊎◌, inl, inr, Option, none, some, arith, str_eq, if◌then◌else◌,
}
use kall.Plans.{Plan, PlanId, premium, plan_key, meter_label, plan_of_key, next_plan_after}
use kall.Plans.Calendar.{Instant}
use kall.Plans.Refill.{DateFormat, refills_on}
use kall.Plans.Order.{rank, next_plan_after-rank}

pub data PlanLimitDetail : Type 0 where
  plan_limit_reached :
      (meter plan : String) (limit : Option ℕ) (period message : String) → PlanLimitDetail
  plan_required : (plan required_plan message : String) → PlanLimitDetail

-- What happens to the mounted dialog: the event on `window`, a key, the close buttons.
pub data DialogEvent : Type 0 where
  plan_limit : PlanLimitDetail → DialogEvent
  key_down : String → DialogEvent
  close : DialogEvent

-- The key listener is there only while a detail is shown.
abbrev on_key : String → Option PlanLimitDetail → Option PlanLimitDetail
on_key key none = none
on_key key (some detail) = if str_eq key "Escape" then none else some detail

unfoldable pub dialog_step : DialogEvent → Option PlanLimitDetail → Option PlanLimitDetail
dialog_step (plan_limit detail) shown = some detail
dialog_step (key_down key) shown = on_key key shown
dialog_step close shown = none

-- The plan that the dialog offers.
unfoldable pub upgrade : PlanLimitDetail → Option Plan
unfolding plan_of_key next_plan_after
upgrade (plan_required plan required_plan message) = plan_of_key required_plan
upgrade (plan_limit_reached meter plan limit period message) = next_plan_after plan

module _ (locale : DateFormat → ℕ → String) (now : Instant) where
  unfoldable pub refill : PlanLimitDetail → String
  unfolding refills_on
  refill (plan_required plan required_plan message) = ""
  refill (plan_limit_reached meter plan limit period message) = refills_on locale period now

abbrev or_self : String → Option String → String
or_self s none = s
or_self s (some label) = label

unfoldable pub meter : PlanLimitDetail → String
unfolding meter_label
meter (plan_required plan required_plan message) = ""
meter (plan_limit_reached name plan limit period message) = or_self name (meter_label name)

-- Whoever meets a metered limit is offered a higher plan, unless there is none.
pub upgrade-rank :
    (id : PlanId) (name period message : String) (limit : Option ℕ)
    → ((upgrade (plan_limit_reached name (plan_key id) limit period message) ≡ none)
        × (id ≡ premium))
      ⊎ ((p : Plan) × (upgrade (plan_limit_reached name (plan_key id) limit period message)
            ≡ some p)
          × (rank id < rank p.id))
unfolding upgrade
upgrade-rank id name period message limit = elim (next_plan_after-rank id) [
  | inl top ↦ inl top
  | inr (p, e, r) ↦ inr (p, e, omega arith)
]

-- A feature that needs a plan offers that very plan.
pub upgrade-required :
    (id : PlanId) (plan message : String)
    → (p : Plan) × (upgrade (plan_required plan (plan_key id) message) ≡ some p) × (p.id ≡ id)
unfolding upgrade
upgrade-required PlanId.free plan message = (_, refl, refl)
upgrade-required PlanId.plus plan message = (_, refl, refl)
upgrade-required premium plan message = (_, refl, refl)

-- Whatever is shown, Escape leaves nothing shown; any other key leaves it as it is.
pub dialog_step-key :
    (key : String) (shown : Option PlanLimitDetail)
    → dialog_step (key_down key) shown ≡ (if str_eq key "Escape" then none else shown)
unfolding dialog_step
dialog_step-key key shown = ground arith
