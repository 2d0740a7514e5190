-- ===== src/Mobile/CareerProfiles.antt =====
-- The guided career profiles of the phone: apps/mobile/src/screens/CareerProfilesScreen.tsx with the types of
-- apps/mobile/src/api/workspace.ts. What the platform does with letters and numbers is an argument: `lower`
-- is `toLocaleLowerCase`, `shown` the text of a number, `read_number` its reading.
pub mod Answers
pub mod Choices
pub mod Handlers
pub mod Review
pub mod RoundTrip
pub mod Laws
pub mod Races
pub mod Tests
use kall.Common.{ℕ, String, Bool, true, false, Option, List, [], ◌∷◌}
use kall.Mobile.Task.{Task}

pub record CareerProfile : Type 0 where
  pub id : ℕ
  pub name : String
  pub target_titles : List String
  pub industries : List String
  pub functional_areas : List String
  pub include_keywords : List String
  pub exclude_keywords : List String
  pub work_types : List String
  pub employment_types : List String
  pub countries : List String
  pub states_regions : List String
  pub cities : List String
  pub pay_basis : String
  pub minimum_base : Option ℕ
  pub target_base : Option ℕ
  pub default_resume_id : Option ℕ
  pub is_active : Bool

pub data PayBasis : Type 0 where
  salary hourly : PayBasis

pub record Draft : Type 0 where
  pub name : String
  pub target_titles : List String
  pub industries : List String
  pub functional_areas : List String
  pub include_keywords : List String
  pub exclude_keywords : List String
  pub work_types : List String
  pub employment_types : List String
  pub countries : List String
  pub states_regions : List String
  pub cities : List String
  pub pay_basis : PayBasis
  pub minimum_base : String
  pub target_base : String
  pub default_resume_id : Option ℕ
  pub is_active : Bool

-- `CareerProfileInput`; the last field is sent only for a profile that is edited.
pub record CareerProfileInput : Type 0 where
  pub name : String
  pub target_titles : List String
  pub industries : List String
  pub functional_areas : List String
  pub include_keywords : List String
  pub exclude_keywords : List String
  pub work_types : List String
  pub employment_types : List String
  pub countries : List String
  pub states_regions : List String
  pub cities : List String
  pub pay_basis : String
  pub minimum_base : Option ℕ
  pub target_base : Option ℕ
  pub default_resume_id : Option ℕ
  pub is_active : Option Bool

pub record Resume : Type 0 where
  pub id : ℕ
  pub name : String

pub record FunctionalArea : Type 0 where
  pub name : String
  pub related_roles : List String

-- A suggestion; a list that is missing counts as empty.
pub record Suggestion : Type 0 where
  pub profile_name : Option String
  pub target_titles : List String
  pub functional_areas : List String
  pub industries : List String
  pub keywords : List String
  pub work_types : List String
  pub pay_basis : Option PayBasis
  pub suggested_salary_min : Option ℕ
  pub suggested_salary_max : Option ℕ

pub data ListKey : Type 0 where
  target_titles industries functional_areas include_keywords exclude_keywords work_types
        employment_types :
      ListKey

pub data QuestionKey : Type 0 where
  name location compensation : QuestionKey
  list : ListKey → QuestionKey

-- `QUESTIONS`: the answer that each asks for, and whether it is optional.
abbrev pub questions : List (QuestionKey × Bool)
questions =
    (name, false)
    ∷ (list target_titles, false)
    ∷ (list industries, false)
    ∷ (list functional_areas, true)
    ∷ (list include_keywords, false)
    ∷ (list exclude_keywords, true)
    ∷ (list work_types, false)
    ∷ (list employment_types, false)
    ∷ (location, false)
    ∷ (compensation, false)
    ∷ []

abbrev pub SuggestedLists : Type 0
SuggestedLists = ListKey → List String

abbrev pub no_lists : SuggestedLists
no_lists key = []

pub data Request : Type 0 where
  fetch_career_profiles fetch_resume_studio fetch_functional_areas : Request
  suggest_career_strategy : (resume : ℕ) → Request
  fetch_related_titles : (titles exclude : List String) → Request
  upload_resume : (file : String) → Request
  create_career_profile : CareerProfileInput → Request
  save_career_profile : (id : ℕ) → CareerProfileInput → Request
  mark_onboarding_complete : (with_resume : Bool) → Request

abbrev pub Response : Request → Type 0
Response fetch_career_profiles = List CareerProfile
Response fetch_resume_studio = List Resume
Response fetch_functional_areas = List FunctionalArea
Response (suggest_career_strategy resume) = Option Suggestion
Response (fetch_related_titles titles exclude) = List String
Response (upload_resume file) = Resume
Response _ = Unit

pub record Screen : Type 0 where
  pub profiles : List CareerProfile
  pub resumes : List Resume
  pub functional_areas : List FunctionalArea
  pub editing : Option CareerProfile
  pub draft : Draft
  pub step : Option ℕ
  pub loading : Bool
  pub saving : Bool
  pub suggesting : Bool
  pub uploading : Bool
  pub suggested_lists : SuggestedLists
  pub message : String

abbrev pub Handler : Type 0 → Type 0
Handler A = Task Screen Request Response A
