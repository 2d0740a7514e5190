-- ===== src/Plans/Tests.antt =====
-- The plans, the refill dates and the paywall at concrete inputs.
use kall.Common.{◌≡◌, refl, none, some, arith}
use kall.Plans.Calendar.{Instant, IsDate, day_number, days_in_month}
use kall.Plans.Refill.{week_day_and_date, month_and_date, refill_day, refills_on}
use kall.Plans.Dialog.{plan_limit_reached, plan_required, meter, dialog_step, key_down, plan_limit}

-- Thursday, 26 November 2026.
abbrev thursday : Instant
thursday = record { years = 56; month = 10; date = 26; millis = 0 }

-- It is day 20783, and the week's allowance comes back on Monday the 30th.
refills :
    (day_number thursday ≡ 20783)
    × (refill_day "week" thursday ≡ some (20787, week_day_and_date))
    × (refill_day "month" thursday ≡ some (20788, month_and_date))
    × (refill_day "day" thursday ≡ none)
unfolding refill_day
refills = (refl, refl, refl, refl)

shown_by_locale : refills_on (λ _ _. "Monday, Nov 30") "week" thursday ≡ "Monday, Nov 30"
unfolding refills_on
shown_by_locale = refl

meters :
    (meter (plan_limit_reached "ai_actions" "plus" none "week" "") ≡ "AI actions")
    × (meter (plan_limit_reached "exports" "plus" none "week" "") ≡ "exports")
unfolding meter
meters = (refl, refl)

dialog_runs :
    dialog_step
      (key_down "Escape")
      (dialog_step (key_down "a") (dialog_step (plan_limit (plan_required "free" "plus" "")) none))
    ≡ none
unfolding dialog_step
dialog_runs = refl

thursday-IsDate : IsDate thursday
unfolding days_in_month
thursday-IsDate = record {
  month_in_year = omega arith;
  date_positive = omega arith;
  date_in_month = omega arith;
}
