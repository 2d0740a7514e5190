-- ===== src/Web/Onboarding.antt =====
-- The onboarding wizard of the web: apps/web/app/onboarding/page.tsx, whose numbers are read by
-- apps/web/app/lib/profileForm.ts. The countries and their regions are those of a third-party table.
pub mod Handlers
pub mod Laws
pub mod Races
pub mod Regions
pub mod Tests
use kall.Common.{
  ℕ, String, Bool, false, Option, none, some, List, [], ◌∷◌, ◌++◌, if◌then◌else◌, keep, contains,
}
use kall.Common.Json.{Json}
use kall.Common.Http
use kall.Common.Text.{trim, is_nonempty}
use kall.Mobile.Task.{Task}

-- What a profile is created with. A number is the text that was typed, as the platform reads it.
pub record ProfileBody : Type 0 where
  pub name : Option String
  pub target_titles : List String
  pub industries : List String
  pub functional_areas : List String
  pub include_keywords : List String
  pub exclude_keywords : List String
  pub countries : List String
  pub states_regions : List String
  pub cities : List String
  pub work_types : List String
  pub employment_types : List String
  pub pay_basis : String
  pub minimum_base : Option ℕ
  pub target_base : Option ℕ

-- The calls of `fetchKall`; the progress is sent with the steps that are completed.
pub data Request : Type 0 where
  create_professional_profile : ProfileBody → Request
  upload_file : Request
  suggest_strategy : (resume : Option Json) → Request
  put_progress : (completed_steps : List String) → Request

abbrev pub Response : Request → Type 0
Response r = Http.Response

-- The state of the page; `signed_out` is that it was left for the sign-in page.
pub record Page : Type 0 where
  pub step : ℕ
  pub submitting : Bool
  pub message : String
  pub profile_created : Bool
  pub resume_uploaded : Bool
  pub suggestion : Option Json
  pub selected_country_codes : List String
  pub selected_regions : List String
  pub signed_out : Bool

abbrev pub initial : Page
initial = record {
  step = 2;
  submitting = false;
  message = "";
  profile_created = false;
  resume_uploaded = false;
  suggestion = none;
  selected_country_codes = [];
  selected_regions = [];
  signed_out = false;
}

abbrev pub Handler : Type 0 → Type 0
Handler A = Task Page Request Response A

-- `form.get(name)` of a submitted form.
abbrev pub Form : Type 0
Form = String → Option String

abbrev or_empty : Option String → String
or_empty none = ""
or_empty (some t) = t

-- `optionalProfileNumber`
unfoldable pub optional_profile_number : (number : String → Option ℕ) → Option String → Option ℕ
unfolding trim
optional_profile_number number value =
    let text = trim (or_empty value) in if is_nonempty text then number text else none

-- `form.get(name) || fallback`
abbrev pub or_default : Option String → String → String
or_default value fallback = if is_nonempty (or_empty value) then or_empty value else fallback

module _ (regions_for_country : String → List String) where
  -- The names of the regions of some countries.
  abbrev pub region_names : List String → List String
  region_names [] = []
  region_names (code ∷ codes) = regions_for_country code ++ region_names codes

  -- `changeCountries`: the regions that are no longer offered are dropped.
  unfoldable pub change_countries : List String → Page → Page
  change_countries codes s = record s {
    selected_country_codes = codes;
    selected_regions = keep (λ region. contains region (region_names codes)) s.selected_regions;
  }

  -- `changeRegions`, with the options that are selected.
  unfoldable pub change_regions : List String → Page → Page
  change_regions regions s = record s { selected_regions = regions }

  -- The country of the browser, which the first effect selects if the table has it.
  unfoldable pub default_country : (known : String → Bool) → Option String → Page → Page
  default_country known none s = s
  default_country known (some region) s =
      if known region then record s { selected_country_codes = region ∷ [] } else s
