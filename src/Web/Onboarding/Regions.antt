-- ===== src/Web/Onboarding/Regions.antt =====
-- The countries and the regions of the wizard's form: apps/web/app/onboarding/page.tsx.
use kall.Common.{
  refl, [], ◌∷◌, map, arith, str_eq, eq_refl, any-append, ℕ, String, ◌≡◌, inl, inr, Bool,
  Bool-cases, true, Option, none, some, List, keep-All, contains, All,
}
use kall.Web.Onboarding.{
  Page, initial, Form, region_names, change_countries, change_regions, default_country,
}
use kall.Web.Onboarding.Handlers.{profile_body, shown_country}

module _ (regions_for_country : String → List String) where
  abbrev pub Offers : List String → String → Type 0
  Offers codes region = contains region (region_names regions_for_country codes) ≡ true

  -- What the two selects can make of the page: the browser's country is selected when it opens, then a
  -- person selects countries, and regions among those that are offered.
  pub data Reaches : Page → Type 0 where
    opens :
        (known : String → Bool) (region : Option String)
        → Reaches (default_country regions_for_country known region initial)
    selects_countries :
        {s : Page}
        → (codes : List String) → Reaches s
        → Reaches (change_countries regions_for_country codes s)
    selects_regions :
        {s : Page}
        → (regions : List String) → All (Offers s.selected_country_codes) regions
        → Reaches s
        → Reaches (change_regions regions_for_country regions s)

  abbrev pub Matches : Page → Type 0
  Matches s = All (Offers s.selected_country_codes) s.selected_regions

  opens-Matches :
      (known : String → Bool) (region : Option String)
      → Matches (default_country regions_for_country known region initial)
  unfolding default_country
  opens-Matches known none = tt
  opens-Matches known (some region) = elim (Bool-cases (known region)) [
    | inl listed ↦ rw listed tt
    | inr other ↦ rw other tt
  ]

  reached-Matches : (s : Page) → Reaches s → Matches s
  unfolding change_countries change_regions
  reached-Matches _ (opens known region) = opens-Matches known region
  reached-Matches _ (selects_countries {s} codes h) =
      keep-All (λ region. contains region (region_names regions_for_country codes))
        s.selected_regions
  reached-Matches _ (selects_regions regions offered h) = offered

  -- A region is one of a country that some countries have by its name.
  abbrev pub IsFrom : (country_name : String → String) → (countries : List String) → String → Type 0
  IsFrom country_name countries region =
      (code : String) × (contains (shown_country country_name code) countries ≡ true)
      × (contains region (regions_for_country code) ≡ true)

  IsFrom-Offers :
      (country_name : String → String) (codes : List String) (region : String)
      → Offers codes region
      → IsFrom country_name (map (shown_country country_name) codes) region
  IsFrom-Offers country_name [] region h = cc
  IsFrom-Offers country_name (code ∷ codes) region h =
      elim (Bool-cases (contains region (regions_for_country code))) [
        | inl here ↦ (code, rw (eq_refl (shown_country country_name code)) refl, here)
        | inr other ↦
            let parts =
              any-append (λ x. str_eq x region) (regions_for_country code)
                (region_names regions_for_country codes) in
            let rest = IsFrom-Offers country_name codes region (ground (arith, h, other, parts)) in
            (rest.0, ground (arith, rest.1), rest.2)
      ]

  IsFrom-All :
      (country_name : String → String) (codes regions : List String)
      → All (Offers codes) regions
      → All (IsFrom country_name (map (shown_country country_name) codes)) regions
  IsFrom-All country_name codes [] h = tt
  IsFrom-All country_name codes (r ∷ rs) (h, hs) =
      (IsFrom-Offers country_name codes r h, IsFrom-All country_name codes rs hs)

  -- Whatever countries and regions a person has selected, in whatever order, each region that the profile
  -- is created with is one of a country whose name it is created with.
  pub sent_regions-IsFrom :
      (country_name : String → String) (number : String → Option ℕ) (s : Page) (form : Form)
      → Reaches s
      → let sent = profile_body country_name number s form in
        All (IsFrom country_name sent.countries) sent.states_regions
  unfolding profile_body
  sent_regions-IsFrom country_name number s form h =
      IsFrom-All country_name s.selected_country_codes s.selected_regions (reached-Matches s h)
