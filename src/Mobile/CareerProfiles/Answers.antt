-- ===== src/Mobile/CareerProfiles/Answers.antt =====
-- The answers of a profile: what a draft is filled from, what is sent, and what is still open:
-- apps/mobile/src/screens/CareerProfilesScreen.tsx.
use kall.Common.{
  ℕ, String, Bool, true, false, not, ◌&&◌, Option, none, some, List, [], ◌∷◌, str_eq, if◌then◌else◌,
}
use kall.Common.Text.{trim, is_nonempty}
use kall.Mobile.Opportunities.{truthy}
use kall.Mobile.CareerProfiles.{
  CareerProfile, PayBasis, salary, hourly, Draft, CareerProfileInput, ListKey, QuestionKey,
  target_titles, industries, functional_areas, include_keywords, exclude_keywords, work_types,
  employment_types, name, location, compensation, list,
}

abbrev pub blank : Draft
blank = record {
  name = "";
  target_titles = [];
  industries = [];
  functional_areas = [];
  include_keywords = [];
  exclude_keywords = [];
  work_types = "remote" ∷ "hybrid" ∷ [];
  employment_types = "full_time" ∷ [];
  countries = "United States" ∷ [];
  states_regions = [];
  cities = [];
  pay_basis = salary;
  minimum_base = "";
  target_base = "";
  default_resume_id = none;
  is_active = true;
}

abbrev pub basis_of : String → PayBasis
basis_of t = if str_eq t "hourly" then hourly else salary

abbrev pub basis_text : PayBasis → String
basis_text salary = "salary"
basis_text hourly = "hourly"

-- `value?.toString() || fallback`, where the text of a number is not empty.
abbrev pub number_text : (shown : ℕ → String) → Option ℕ → (fallback : String) → String
number_text shown none fallback = fallback
number_text shown (some n) fallback = shown n

-- `profileDraft`
unfoldable pub profile_draft : (shown : ℕ → String) → CareerProfile → Draft
profile_draft shown p = record {
  name = p.name;
  target_titles = p.target_titles;
  industries = p.industries;
  functional_areas = p.functional_areas;
  include_keywords = p.include_keywords;
  exclude_keywords = p.exclude_keywords;
  work_types = p.work_types;
  employment_types = p.employment_types;
  countries = p.countries;
  states_regions = p.states_regions;
  cities = p.cities;
  pay_basis = basis_of p.pay_basis;
  minimum_base = number_text shown p.minimum_base "";
  target_base = number_text shown p.target_base "";
  default_resume_id = truthy p.default_resume_id;
  is_active = p.is_active;
}

-- `numberOrNull`; `read_number` has nothing for what is no finite number.
unfoldable pub number_or_null : (read_number : String → Option ℕ) → String → Option ℕ
unfolding trim
number_or_null read_number value = if is_nonempty (trim value) then read_number value else none

-- The body that `save` sends.
unfoldable pub input_of :
    (read_number : String → Option ℕ)
    → (editing : Option CareerProfile) → Draft
    → CareerProfileInput
unfolding trim number_or_null
input_of read_number editing d = record {
  name = trim d.name;
  target_titles = d.target_titles;
  industries = d.industries;
  functional_areas = d.functional_areas;
  include_keywords = d.include_keywords;
  exclude_keywords = d.exclude_keywords;
  work_types = d.work_types;
  employment_types = d.employment_types;
  countries = d.countries;
  states_regions = d.states_regions;
  cities = d.cities;
  pay_basis = basis_text d.pay_basis;
  minimum_base = number_or_null read_number d.minimum_base;
  target_base = number_or_null read_number d.target_base;
  default_resume_id = d.default_resume_id;
  is_active = elim editing [ none ↦ none | some p ↦ some d.is_active ];
}

abbrev pub is_empty {ℓ} : {A : Type ℓ} → List A → Bool
is_empty [] = true
is_empty (x ∷ xs) = false

abbrev listed : Bool → String → List String → List String
listed missing text rest = if missing then text ∷ rest else rest

-- `unknowns`: what is still open, in the order of the questions.
unfoldable pub unknowns : Draft → List String
unfolding trim
unknowns d = listed (not (is_nonempty (trim d.name))) "career direction name" (
    listed (is_empty d.target_titles) "target roles" (
      listed (is_empty d.industries) "industries" (
        listed (is_empty d.include_keywords) "evidence-backed strengths" (
          listed (is_empty d.work_types) "work setting" (
            listed (is_empty d.employment_types) "work arrangement" (
              listed (is_empty d.countries && is_empty d.states_regions) "location"
                (listed (not (is_nonempty (trim d.target_base))) "target compensation" [])))))))

abbrev put_list : ListKey → List String → Draft → Draft
put_list target_titles values d = record d { target_titles = values }
put_list industries values d = record d { industries = values }
put_list functional_areas values d = record d { functional_areas = values }
put_list include_keywords values d = record d { include_keywords = values }
put_list exclude_keywords values d = record d { exclude_keywords = values }
put_list work_types values d = record d { work_types = values }
put_list employment_types values d = record d { employment_types = values }

-- What `leaveOpen` makes of the draft.
unfoldable pub left_open : QuestionKey → Draft → Draft
left_open location d = record d { countries = []; states_regions = []; cities = [] }
left_open compensation d = record d { minimum_base = ""; target_base = "" }
left_open name d = record d { name = "" }
left_open (list key) d = put_list key [] d
