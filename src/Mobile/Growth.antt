-- ===== src/Mobile/Growth.antt =====
-- The growth plans of the phone: apps/mobile/src/screens/GrowthScreen.tsx with the types of
-- apps/mobile/src/api/growth.ts. The screen is modelled with the card of one goal, whose goal and plan a
-- handler captures.
pub mod Markdown
pub mod Handlers
pub mod Laws
pub mod Tests
use kall.Common.{ℕ, String, Bool, Option, List}
use kall.Mobile.Task.{Task}

pub record Goal : Type 0 where
  pub id : ℕ
  pub title : String
  pub target_role : String
  pub target_industry : Option String
  pub status : String

pub record Milestone : Type 0 where
  pub sequence : ℕ
  pub phase : String
  pub title : String
  pub description : String
  pub estimated_hours : Option ℕ

pub record Resource : Type 0 where
  pub id : ℕ
  pub title : String
  pub url : String
  pub saved : Bool

pub record Assessment : Type 0 where
  pub readiness_score : ℕ
  pub narrative : String

pub record Plan : Type 0 where
  pub id : ℕ
  pub summary : String
  pub current_strengths : List String
  pub skill_gaps : List String
  pub recommended_roles : List String
  pub milestones : List Milestone
  pub resources : List Resource
  pub skill_assessments : List Assessment

pub record GoalInput : Type 0 where
  pub title : String
  pub target_role : String
  pub target_industry : Option String
  pub time_per_week_hours : Option ℕ
  pub budget_preference : String

pub record ResourceHit : Type 0 where
  pub title : String
  pub url : String
  pub snippet : String
  pub saved : Bool

-- The results of a search, or that searching is not enabled.
pub record Found : Type 0 where
  pub enabled : Bool
  pub results : List ResourceHit

pub data Request : Type 0 where
  fetch_growth_dashboard : Request
  create_goal : GoalInput → Request
  generate_plan : (goal : ℕ) (regenerate : Bool) → Request
  analyze_skills : (goal : ℕ) (answer : String) → Request
  import_resource : (plan : ℕ) (url title : String) (description : Option String) → Request
  search_plan_resources : (plan : ℕ) (category : String) → Request
  pin_resource : (resource : ℕ) (saved : Bool) → Request

abbrev pub Response : Request → Type 0
Response fetch_growth_dashboard = List (Goal × Option Plan)
Response (create_goal input) = Goal
Response (search_plan_resources plan category) = Found
Response _ = Unit

-- The form of a new goal.
pub record NewGoal : Type 0 where
  pub title : String
  pub target_role : String
  pub target_industry : String
  pub hours_per_week : String
  pub budget : String

abbrev pub empty_form : NewGoal
empty_form = record {
  title = "";
  target_role = "";
  target_industry = "";
  hours_per_week = "5";
  budget = "free_or_low_cost";
}

-- The state of the card of a goal.
pub record Card : Type 0 where
  pub answer : String
  pub analyzing : Bool
  pub resource_url : String
  pub resource_title : String
  pub saving_resource : Bool
  pub pending_resource_id : Option ℕ
  pub hits : Option (List ResourceHit)
  pub hits_category : Option String
  pub searching_hits : Bool
  pub saving_hit_url : Option String

pub record Screen : Type 0 where
  pub goals : List (Goal × Option Plan)
  pub loading : Bool
  pub refreshing : Bool
  pub message : String
  pub show_new_goal : Bool
  pub form : NewGoal
  pub creating : Bool
  pub card : Card

abbrev pub Handler : Type 0 → Type 0
Handler A = Task Screen Request Response A
