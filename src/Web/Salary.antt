-- ===== src/Web/Salary.antt =====
-- The pay range of a form, apps/web/app/components/SalaryRangeInput.tsx. Money is in whole dollars, as the steps
-- are; the annual figures that the backend sends are natural numbers too. `Math.round(a / b)` is the integer
-- nearest to a / b, the upper one of two.
pub mod Steps
pub mod Tests
use kall.Common.{
  ℕ, ◌+◌, ◌-◌, ◌*◌, ◌/◌, Bool, true, false, Option, none, some, List, [], ◌∷◌, ltb, if◌then◌else◌,
}

pub data PayBasis : Type 0 where
  hourly salary : PayBasis

abbrev pub hours_per_year : ℕ
hours_per_year = 2080

abbrev pub hourly_steps : List ℕ
hourly_steps = 0 ∷ 15 ∷ 20 ∷ 25 ∷ 30 ∷ 35 ∷ 40 ∷ 45 ∷ 50 ∷ 60 ∷ 70 ∷ 80 ∷ 100 ∷ 125 ∷ 150 ∷ 200 ∷ []

abbrev pub salary_steps : List ℕ
salary_steps =
    0 ∷ 40000 ∷ 50000 ∷ 60000 ∷ 70000 ∷ 80000 ∷ 90000 ∷ 100000 ∷ 110000 ∷ 120000 ∷ 130000 ∷ 140000
    ∷ 150000 ∷ 160000 ∷ 175000 ∷ 190000 ∷ 200000 ∷ 225000 ∷ 250000 ∷ 275000 ∷ 300000 ∷ 350000
    ∷ 400000 ∷ []

-- `Math.abs(a - b)`
abbrev pub distance : ℕ → ℕ → ℕ
distance a b = (a - b) + (b - a)

abbrev pub closer : ℕ → ℕ → ℕ → ℕ
closer value closest step =
    if ltb (distance step value) (distance closest value) then step else closest

-- The `reduce`, from its initial value on.
unfoldable pub nearest_from : ℕ → ℕ → List ℕ → ℕ
nearest_from value closest [] = closest
nearest_from value closest (step ∷ steps) = nearest_from value (closer value closest step) steps

-- Both lists of steps have a first one.
abbrev pub nearest_step : List ℕ → ℕ → ℕ
nearest_step [] value = 0
nearest_step (first ∷ steps) value = nearest_from value first (first ∷ steps)

unfoldable pub round_div : ℕ → ℕ → ℕ
round_div a b = (2 * a + b) / (2 * b)

unfoldable pub to_display : PayBasis → ℕ → ℕ
unfolding round_div
to_display hourly annualized = round_div annualized hours_per_year
to_display salary annualized = annualized

unfoldable pub to_annualized : PayBasis → ℕ → ℕ
to_annualized hourly displayed = displayed * hours_per_year
to_annualized salary displayed = displayed

abbrev pub steps_of : PayBasis → List ℕ
steps_of hourly = hourly_steps
steps_of salary = salary_steps

-- An empty value is none.
pub record Range : Type 0 where
  pub basis : PayBasis
  pub min_value : Option ℕ
  pub max_value : Option ℕ

abbrev pub convert : (ℕ → ℕ) → Option ℕ → Option ℕ
convert f none = none
convert f (some n) = some (f n)

-- What the component starts with.
unfoldable pub initial_range : PayBasis → Option ℕ → Option ℕ → Range
unfolding nearest_from to_display
initial_range basis default_min default_max =
    let shown = convert (λ n. nearest_step (steps_of basis) (to_display basis n)) in
    record { basis = basis; min_value = shown default_min; max_value = shown default_max }

abbrev same_basis : PayBasis → PayBasis → Bool
same_basis hourly hourly = true
same_basis salary salary = true
same_basis _ _ = false

unfoldable pub change_basis : PayBasis → Range → Range
unfolding nearest_from to_display to_annualized
change_basis next r =
    let converted =
      convert (λ n. nearest_step (steps_of next) (to_display next (to_annualized r.basis n))) in
    if same_basis next r.basis then r else record {
      basis = next;
      min_value = converted r.min_value;
      max_value = converted r.max_value;
    }

-- The estimate is used where both of its ends are there.
unfoldable pub apply_estimate : Option ℕ → Option ℕ → Range → Range
unfolding nearest_from to_display
apply_estimate (some low) (some high) r = record r {
  min_value = some (nearest_step (steps_of r.basis) (to_display r.basis low));
  max_value = some (nearest_step (steps_of r.basis) (to_display r.basis high));
}
apply_estimate _ _ r = r

-- The hidden inputs that the form sends: none for the empty text.
unfoldable pub submitted : Range → Option ℕ × Option ℕ
unfolding to_annualized
submitted r =
    (convert (to_annualized r.basis) r.min_value, convert (to_annualized r.basis) r.max_value)
