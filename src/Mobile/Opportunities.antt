-- ===== src/Mobile/Opportunities.antt =====
-- The list of matches: apps/mobile/src/screens/OpportunitiesScreen.tsx, its state, what it derives from
-- it, its requests and its handlers.
pub mod Laws
pub mod Races
pub mod Tests
use kall.Common.{
  ℕ, String, Bool, true, false, not, ◌&&◌, Option, none, some, List, [], ◌∷◌, ◌==◌, if◌then◌else◌,
  keep,
}
use Prim.Native.String
use kall.Common.Text.{trim}
use kall.Common.Decimal.{decimal}
use kall.Mobile.Task.{Task, give, update, set, await, catch, finally, api_message, ◌>>=◌, ◌>>◌}
use kall.Mobile.OpportunityDetail.{OpportunityState, SuppressionReason, or_else}

pub record CareerProfile : Type 0 where
  pub id : ℕ
  pub name : String
  pub target_titles : List String

-- The parts of a row of the feed that the screen computes with.
pub record JobFeedItem : Type 0 where
  pub match_id : ℕ
  pub job_id : ℕ
  pub opportunity_id : Option ℕ
  pub company : String
  pub title : String
  pub salary_min : Option ℕ
  pub salary_max : Option ℕ
  pub url : String

pub record TrackedOpportunity : Type 0 where
  pub id : ℕ
  pub professional_profile_id : ℕ
  pub job_id : ℕ
  pub state : String

pub record DiscoveryRun : Type 0 where
  pub jobs_collected : ℕ
  pub matches_created : ℕ
  pub errors : List String

pub data Request : Type 0 where
  fetch_career_profiles fetch_opportunities : Request
  fetch_jobs_feed : (profile : ℕ) → Request
  run_discovery : (profile : ℕ) (intent : String) → Request
  update_opportunity_state : ℕ → OpportunityState → Request
  suppress_result : (url title : String) → SuppressionReason → Request

abbrev pub Response : Request → Type 0
Response fetch_career_profiles = List CareerProfile
Response fetch_opportunities = List TrackedOpportunity
Response (fetch_jobs_feed profile) = List JobFeedItem
Response (run_discovery profile intent) = DiscoveryRun
Response (update_opportunity_state id state) = Unit
Response (suppress_result url title reason) = Unit

pub record Screen : Type 0 where
  pub profiles : List CareerProfile
  pub profile_id : Option ℕ
  pub feed : List JobFeedItem
  pub tracked : List TrackedOpportunity
  pub loading : Bool
  pub refreshing : Bool
  pub searching : Bool
  pub extra_terms : String
  pub pending_id : Option ℕ
  pub message : String

abbrev pub initial : Screen
initial = record {
  profiles = [];
  profile_id = none;
  feed = [];
  tracked = [];
  loading = true;
  refreshing = false;
  searching = false;
  extra_terms = "";
  pending_id = none;
  message = "";
}

abbrev pub Handler : Type 0 → Type 0
Handler A = Task Screen Request Response A

abbrev say : String → Screen → Screen
say message s = record s { message = message }

-- An identifier that counts as true: neither absent nor 0.
abbrev pub truthy : Option ℕ → Option ℕ
truthy none = none
truthy (some id) = if id == 0 then none else some id

-- The amount of a bound that counts as true.
abbrev or_amount : Option ℕ → Option ℕ → ℕ
or_amount a b = elim (or_else (truthy a) (truthy b)) [ none ↦ 0 | some n ↦ n ]

-- `formatSalary`, with the platform's text of a number.
unfoldable pub format_salary : (amount_text : ℕ → String) → JobFeedItem → String
format_salary amount_text item =
    let low = or_amount item.salary_min item.salary_max in
    let high = or_amount item.salary_max item.salary_min in
    elim (or_else (truthy item.salary_min) (truthy item.salary_max)) [
      | none ↦ "Salary not listed"
      | some _ ↦
          String.◌++◌ (String.◌++◌ "$" (amount_text low))
            (if high == low then "" else String.◌++◌ "–$" (amount_text high))
    ]

-- A map that is filled in the list's order: a later entry replaces an earlier one.
unfoldable pub last_of :
    (TrackedOpportunity → Bool) → List TrackedOpportunity → Option TrackedOpportunity
last_of test [] = none
last_of test (x ∷ xs) = or_else (last_of test xs) (if test x then some x else none)

abbrev pub is_profile : Option ℕ → ℕ → Bool
is_profile none id = false
is_profile (some current) id = id == current

-- `trackedByJobId.get(job)` and `trackedById.get(id)`
abbrev pub for_job : Option ℕ → ℕ → TrackedOpportunity → Bool
for_job profile job x = is_profile profile x.professional_profile_id && x.job_id == job

abbrev pub with_id : Option ℕ → List TrackedOpportunity → Option TrackedOpportunity
with_id none tracked = none
with_id (some id) tracked = last_of (λ x. x.id == id) tracked

unfoldable pub tracked_opportunity : Screen → JobFeedItem → Option TrackedOpportunity
unfolding last_of
tracked_opportunity s item =
    or_else (with_id (truthy item.opportunity_id) s.tracked)
      (last_of (for_job s.profile_id item.job_id) s.tracked)

abbrev id_of : Option TrackedOpportunity → Option ℕ
id_of none = none
id_of (some x) = some x.id

-- `item.opportunity_id ?? trackedOpportunity(item)?.id`
unfoldable pub opportunity_id_of : Screen → JobFeedItem → Option ℕ
unfolding tracked_opportunity
opportunity_id_of s item = or_else item.opportunity_id (id_of (tracked_opportunity s item))

abbrev first_id : List CareerProfile → Option ℕ
first_id [] = none
first_id (p ∷ ps) = some p.id

abbrev load_feed : Option ℕ → Handler Unit
load_feed none = set (λ s. record s { feed = [] })
load_feed (some id) = do feed ← await (fetch_jobs_feed id); set (λ s. record s { feed = feed })

unfoldable pub load : (current_profile : Option ℕ) → Handler Unit
unfolding ◌>>=◌ catch finally api_message
load current_profile =
    finally
      (catch
        (do
          profiles ← await fetch_career_profiles
          let active = or_else current_profile (first_id profiles)
          set (λ s. record s { profiles = profiles; profile_id = active })
          tracked ← await fetch_opportunities
          set (λ s. record s { tracked = tracked })
          load_feed (truthy active)
          set (say ""))
        (λ e. set (say (api_message "Unable to load opportunities." e))))
      (λ s. record s { loading = false; refreshing = false })

unfoldable pub select_profile : ℕ → Handler Unit
unfolding ◌>>=◌ catch finally api_message
select_profile id = do
  set (λ s. record s { profile_id = some id; loading = true })
  finally
      (catch
        (do feed ← await (fetch_jobs_feed id); set (λ s. record s { feed = feed; message = "" }))
        (λ e. set (say (api_message "Unable to load results for this profile." e))))
      (λ s. record s { loading = false })

abbrev is_empty {ℓ} : {A : Type ℓ} → List A → Bool
is_empty [] = true
is_empty (x ∷ xs) = false

-- What the person is told of a search.
unfoldable pub discovery_text : DiscoveryRun → String
discovery_text result =
    if result.jobs_collected == 0
    then if is_empty result.errors
      then "No open roles matched this profile right now. Broaden the target titles, or add terms above and search again."
      else "The search could not reach the job sites. Try again in a moment."
    else String.◌++◌ "Found " (
        String.◌++◌ (decimal result.jobs_collected) (
          String.◌++◌ " open " (
            String.◌++◌ (if result.jobs_collected == 1 then "role" else "roles") (
              String.◌++◌ ", "
                (String.◌++◌ (decimal result.matches_created) " new for this profile.")))))

abbrev search_profile : String → ℕ → Handler Unit
search_profile terms id = do
  set (λ s. record s {
    searching = true;
    message = "Searching job boards and company career sites for this profile…";
  })
  finally
      (catch
        (do
          result ← await (run_discovery id (trim terms))
          load (some id)
          set (say (discovery_text result)))
        (λ e. set (say (api_message "Unable to run discovery." e))))
      (λ s. record s { searching = false })

-- `searchNow`, with the profile and the terms that it captured.
unfoldable pub search_now : Option ℕ → String → Handler Unit
unfolding ◌>>=◌ catch finally api_message load discovery_text
search_now profile terms = elim (truthy profile) [
  | none ↦ give tt
  | some id ↦ search_profile terms id
]

abbrev set_pending : Option ℕ → Screen → Screen
set_pending id s = record s { pending_id = id }

abbrev set_state_of : OpportunityState → ℕ → Handler Unit
set_state_of state id = do
  set (set_pending (some id))
  finally
      (catch
        (do
          await (update_opportunity_state id state)
          tracked ← await fetch_opportunities
          set (λ s. record s { tracked = tracked }))
        (λ e. set (say (api_message "Unable to update this opportunity." e))))
      (set_pending none)

-- `setState` of a row, on the screen that the button was drawn on.
unfoldable pub set_state : Screen → JobFeedItem → OpportunityState → Handler Unit
unfolding ◌>>=◌ catch finally api_message
set_state drawn item state = elim (truthy (opportunity_id_of drawn item)) [
  | none ↦ set (say "This role has not been added to your tracked inbox yet -- run a search first.")
  | some id ↦ set_state_of state id
]

unfoldable pub dismiss : JobFeedItem → SuppressionReason → Handler Unit
unfolding ◌>>=◌ catch api_message
dismiss item reason =
    catch
      (do
        await (suppress_result item.url item.title reason)
        set (λ s. record s { feed = keep (λ row. not (row.match_id == item.match_id)) s.feed })
        tracked ← await fetch_opportunities
        set (λ s. record s { tracked = tracked }))
      (λ e. set (say (api_message "Unable to update that result." e)))
