-- ===== src/Plans.antt =====
-- The plans and the words of the paywall: apps/web/app/lib/plans.ts. Dates are in Plans/Calendar, the
-- dialog in Plans/Dialog.
pub mod Calendar
pub mod Refill
pub mod Order
pub mod Dialog
pub mod Tests
use kall.Common.{
  ℕ, zero, suc, ◌+◌, ◌-◌, String, not, Option, none, some, List, [], ◌∷◌, str_eq, leb,
  if◌then◌else◌, length, find,
}

pub data PlanId : Type 0 where
  free plus premium : PlanId

-- The text that stands for a plan in the API.
abbrev pub plan_key : PlanId → String
plan_key free = "free"
plan_key plus = "plus"
plan_key premium = "premium"

pub record Plan : Type 0 where
  pub id : PlanId
  pub name : String
  pub price : String
  pub cadence : String
  pub pitch : String
  pub lines : List String

abbrev pub free_plan : Plan
free_plan = record {
  id = free;
  name = "Free";
  price = "$0";
  cadence = "";
  pitch = "Enough to know whether Kall works for you.";
  lines =
      "5 applications a week" ∷ "25 MB of resumes" ∷ "Job search, tracking and tailoring"
      ∷ "Profile suggestions from your resume" ∷ [];
}

abbrev pub plus_plan : Plan
plus_plan = record {
  id = plus;
  name = "Plus";
  price = "$9";
  cadence = "/month";
  pitch = "For a real search, run weekly.";
  lines =
      "25 applications a week" ∷ "15 AI actions a week" ∷ "500 MB of resumes"
      ∷ "Career growth plans, skills analysis and interview prep"
      ∷ "AI-matched resume strategy suggestions" ∷ "Daily brief and scheduled discovery"
      ∷ "Career page without the Kall footer" ∷ "The apply extension" ∷ [];
}

abbrev pub premium_plan : Plan
premium_plan = record {
  id = premium;
  name = "Premium";
  price = "$25";
  cadence = "/month";
  pitch = "For a search you are not counting.";
  lines =
      "Unlimited applications" ∷ "400 AI actions a month" ∷ "5 GB of resumes"
      ∷ "A career page per role" ∷ "Custom domain" ∷ "Everything in Plus" ∷ [];
}

abbrev pub plans : List Plan
plans = free_plan ∷ plus_plan ∷ premium_plan ∷ []

-- `METER_LABELS[meter]`
unfoldable pub meter_label : String → Option String
meter_label meter =
    if str_eq meter "applications"
    then some "applications"
    else if str_eq meter "ai_actions"
    then some "AI actions"
    else if str_eq meter "storage_bytes"
    then some "resume storage"
    else none

abbrev pub order : List PlanId
order = free ∷ plus ∷ premium ∷ []

-- `indexOf`, with `none` for -1
abbrev pub index_of : String → List PlanId → Option ℕ
index_of plan [] = none
index_of plan (p ∷ ps) =
    if str_eq (plan_key p) plan
    then some 0
    else elim (index_of plan ps) [ none ↦ none | some i ↦ some (suc i) ]

abbrev pub get_elem? : List PlanId → ℕ → Option PlanId
get_elem? [] i = none
get_elem? (p ∷ ps) zero = some p
get_elem? (p ∷ ps) (suc i) = get_elem? ps i

-- `PLANS.find((entry) => entry.id === key)`
unfoldable pub plan_of_key : String → Option Plan
plan_of_key key = find (λ entry. str_eq (plan_key entry.id) key) plans

abbrev plan_at : Option PlanId → Option Plan
plan_at none = none
plan_at (some id) = plan_of_key (plan_key id)

-- What follows the test of the index in `nextPlanAfter`.
abbrev after_index : Option ℕ → Option Plan
after_index none = none
after_index (some index) =
    if leb (length order - 1) index then none else plan_at (get_elem? order (index + 1))

unfoldable pub next_plan_after : String → Option Plan
unfolding plan_of_key
next_plan_after plan = after_index (index_of plan order)
