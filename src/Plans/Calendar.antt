-- ===== src/Plans/Calendar.antt =====
-- The part of the language's `Date` that the refill date uses, in UTC: day numbers from 1970-01-01, the
-- day of the week, and the first day of a month.
use kall.Common.{
  ℕ, zero, suc, ◌+◌, ◌-◌, ◌/◌, ◌%◌, ◌≤◌, ◌<◌, ◌≡◌, inl, inr, Bool, not, ◌&&◌, ◌||◌, arith, ◌==◌,
  if◌then◌else◌, ==_iff, Bool-cases,
}

unfoldable pub is_leap : ℕ → Bool
is_leap y = y % 4 == 0 && (not (y % 100 == 0) || y % 400 == 0)

-- Months are counted from 0, as `getUTCMonth` does.
unfoldable pub days_in_month : ℕ → ℕ → ℕ
unfolding is_leap
days_in_month y m =
    if m == 1
    then if is_leap y then 29 else 28
    else if m == 3 || m == 5 || m == 8 || m == 10
    then 30
    else 31

-- The days of the first `m` months of a year.
unfoldable pub days_before_month : ℕ → ℕ → ℕ
unfolding days_in_month
days_before_month y zero = 0
days_before_month y (suc m) = days_before_month y m + days_in_month y m

-- The day number of the first of January, that many years after 1970.
unfoldable pub year_start : ℕ → ℕ
unfolding days_before_month
year_start zero = 0
year_start (suc n) = year_start n + days_before_month (1970 + n) 12

-- An instant, with its calendar fields in UTC: years since 1970, month from 0, day from 1.
pub record Instant : Type 0 where
  pub years : ℕ
  pub month : ℕ
  pub date : ℕ
  pub millis : ℕ

abbrev pub year : Instant → ℕ
year t = 1970 + t.years

pub record IsDate (t : Instant) : Type 0 where
  pub month_in_year : t.month < 12
  pub date_positive : 1 ≤ t.date
  pub date_in_month : t.date ≤ days_in_month (year t) t.month

-- `Date.UTC(1970 + years, month, 1)`, a month past the year's end being in the next year.
unfoldable pub month_start : ℕ → ℕ → ℕ
unfolding year_start
month_start years month =
    let y = years + month / 12 in year_start y + days_before_month (1970 + y) (month % 12)

unfoldable pub day_number : Instant → ℕ
unfolding month_start
day_number t = month_start t.years t.month + t.date - 1

-- `getUTCDay` of a day number: 0 is Sunday, and 1970-01-01 was a Thursday.
unfoldable pub week_day : ℕ → ℕ
week_day day = (day + 4) % 7

-- Inside a year, and at its end.
month_start_inside :
    (years month : ℕ)
    → month < 12
    → month_start years month ≡ year_start years + days_before_month (1970 + years) month
unfolding month_start
month_start_inside years month h =
    let q : month / 12 ≡ 0 = omega arith in
    let r : month % 12 ≡ month = omega arith in
    let z : years + 0 ≡ years = omega arith in rw (q, r, z)

month_start_next_year : (years : ℕ) → month_start years 12 ≡ year_start (suc years)
unfolding month_start
month_start_next_year years = let z : years + 1 ≡ suc years = omega arith in rw z (omega arith)

-- The next month starts where this one ends.
pub month_start-suc :
    (years month : ℕ)
    → month < 12
    → month_start years (month + 1) ≡ month_start years month + days_in_month (1970 + years) month
unfolding year_start
month_start-suc years month h = elim (Bool-cases (month == 11)) [
  | inl last ↦
      let e : month ≡ 11 = (==_iff month 11).0 last in
      rw e (omega (arith, month_start_next_year years, month_start_inside years 11 (omega arith)))
  | inr more ↦
      let h' : suc month < 12 = ground arith in
      let z : month + 1 ≡ suc month = omega arith in
      rw z
        (omega (arith, month_start_inside years (suc month) h', month_start_inside years month h))
]

pub days_in_month-le : (y m : ℕ) → days_in_month y m ≤ 31
unfolding days_in_month
days_in_month-le y m = ground arith
