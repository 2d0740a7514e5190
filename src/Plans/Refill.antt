-- ===== src/Plans/Refill.antt =====
-- `refillsOn` of apps/web/app/lib/plans.ts: when an allowance comes back.
use kall.Common.{
  ℕ, ◌+◌, ◌-◌, ◌%◌, ◌≤◌, ◌<◌, String, ◌≡◌, refl, Option, none, some, arith, str_eq, ◌==◌,
  if◌then◌else◌,
}
use kall.Plans.Calendar.{
  Instant, IsDate, year, month_start, day_number, week_day, days_in_month, month_start-suc,
  days_in_month-le,
}

-- The options of `toLocaleDateString`: the reader's locale and the names are the platform's.
pub data DateFormat : Type 0 where
  week_day_and_date : DateFormat
  month_and_date : DateFormat

-- `(8 - now.getUTCDay()) % 7 || 7`
unfoldable pub days_until_monday : ℕ → ℕ
days_until_monday day_of_week =
    let rounded = (8 - day_of_week) % 7 in if rounded == 0 then 7 else rounded

-- The midnight, as a day number, at which the allowance comes back, and how it is shown. Other
-- periods have none.
unfoldable pub refill_day : String → Instant → Option (ℕ × DateFormat)
unfolding day_number week_day days_until_monday
refill_day period now =
    if str_eq period "week"
    then some (day_number now + days_until_monday (week_day (day_number now)), week_day_and_date)
    else if str_eq period "month"
    then some (month_start now.years (now.month + 1), month_and_date)
    else none

module _ (locale : DateFormat → ℕ → String) where
  abbrev shown : Option (ℕ × DateFormat) → String
  shown none = ""
  shown (some (day, format)) = locale format day

  unfoldable pub refills_on : String → Instant → String
  unfolding refill_day
  refills_on period now = shown (refill_day period now)

to_monday :
    (d : ℕ)
    → (week_day (d + days_until_monday (week_day d)) ≡ 1)
      × (d < d + days_until_monday (week_day d))
      × (days_until_monday (week_day d) ≤ 7)
unfolding week_day days_until_monday
to_monday d = ground arith

-- A weekly allowance comes back on a Monday, after today and at most seven days on.
pub refill_day-week :
    (now : Instant)
    → (day : ℕ) × (refill_day "week" now ≡ some (day, week_day_and_date))
      × (week_day day ≡ 1)
      × (day_number now < day)
      × (day ≤ day_number now + 7)
unfolding refill_day
refill_day-week now =
    let (monday, later, near) = to_monday (day_number now) in
    (
      day_number now + days_until_monday (week_day (day_number now)),
      refl,
      monday,
      later,
      omega arith,
    )

-- A monthly allowance comes back on the first day of the month after this one: after today, at most
-- 31 days on, and at the end of the month that began `date - 1` days ago.
pub refill_day-month :
    (now : Instant)
    → IsDate now
    → (day : ℕ) × (refill_day "month" now ≡ some (day, month_and_date))
      × (day_number now < day)
      × (day ≤ day_number now + 31)
      × (day + now.date ≡ day_number now + 1 + days_in_month (year now) now.month)
unfolding refill_day
refill_day-month now v = (
  month_start now.years (now.month + 1),
  refl,
  omega (arith, month_start-suc now.years now.month v.month_in_year),
  omega (
    arith,
    month_start-suc now.years now.month v.month_in_year,
    days_in_month-le (year now) now.month,
  ),
  omega (arith, month_start-suc now.years now.month v.month_in_year),
)
