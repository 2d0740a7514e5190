-- ===== src/Mobile/Opportunities/Tests.antt =====
-- The list of matches against a concrete server.

use kall.Common.{ℕ, ◌≡◌, refl, none, some, List, [], ◌∷◌}
use kall.Common.Decimal.{decimal}
use kall.Mobile.Task.{Result, ok, Server, World}
use kall.Mobile.Opportunities.{
  JobFeedItem, TrackedOpportunity, Request, fetch_career_profiles, fetch_opportunities,
  fetch_jobs_feed, run_discovery, suppress_result, update_opportunity_state, Response, Screen,
  initial, opportunity_id_of, discovery_text, format_salary,
}

abbrev row : ℕ → JobFeedItem
row n = record {
  match_id = n;
  job_id = 7;
  opportunity_id = none;
  company = "Ex";
  title = "QA";
  salary_min = some 90;
  salary_max = none;
  url = "https://ex.org/qa";
}

abbrev inbox : TrackedOpportunity
inbox = record { id = 5; professional_profile_id = 2; job_id = 7; state = "new" }

abbrev feed_of : ℕ → List JobFeedItem
feed_of profile = row profile ∷ row 9 ∷ []

abbrev answer : (r : Request) → Result (Response r)
answer fetch_career_profiles = ok (record { id = 2; name = "Tester"; target_titles = [] } ∷ [])
answer fetch_opportunities = ok (inbox ∷ [])
answer (fetch_jobs_feed profile) = ok (feed_of profile)
answer (run_discovery profile intent) =
    ok (record { jobs_collected = 1; matches_created = 1; errors = [] })
answer (update_opportunity_state id state) = ok tt
answer (suppress_result url title reason) = ok tt

abbrev server : Server Request Response
server earlier r = answer r

abbrev listed : Screen
listed = record initial { profile_id = some 2; feed = row 9 ∷ row 2 ∷ []; tracked = inbox ∷ [] }

abbrev quiet : World Screen Request Response
quiet = record { screen = listed; waiting = [] }

salary_test : format_salary (λ n. "90,000") (row 1) ≡ "$90,000"
unfolding format_salary
salary_test = refl

discovery_test :
    discovery_text (record { jobs_collected = 12; matches_created = 3; errors = [] })
    ≡ "Found 12 open roles, 3 new for this profile."
unfolding discovery_text decimal
discovery_test = refl

known : opportunity_id_of listed (row 9) ≡ some 5
unfolding opportunity_id_of
known = refl
