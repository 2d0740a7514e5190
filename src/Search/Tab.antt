-- ===== src/Search/Tab.antt =====
-- The search page's state, apps/web/app/search/SearchTab.tsx: a search and an edit of its terms are requests
-- that later actions invalidate. A request is followed from one `await` to the next.
pub mod Stale
pub mod Tests
use kall.Common.{
  ℕ, ◌+◌, String, Bool, true, false, not, ◌&&◌, ◌||◌, Option, none, some, List, [], ◌∷◌, ◌++◌, map,
  str_eq, ◌==◌, if◌then◌else◌, length, keep,
}
use Prim.Native.String
use kall.Common.Text.{is_nonempty}
use kall.Search.Sites.{
  SiteDomain, SiteQuery, no_domains, no_groups, site_queries_for, split_new_terms,
}
use kall.Common.Decimal.{decimal}
use kall.Common.Json.{Json}
use kall.Search.Query.{SearchGroup, parse_query, build_query, has_terms}

-- The component's state with its ref, the `q` of the address, the errors that were put up as toasts, and
-- whether the page was left for the sign-in page.
pub record Tab : Type 0 where
  pub profile_id : String
  pub query_input : String
  pub groups : List SearchGroup
  pub site_domains : List SiteDomain
  pub site_queries : List SiteQuery
  pub aggregated_results : Option Json
  pub message : String
  pub loading : Bool
  pub sequence : ℕ
  pub address_query : Option String
  pub toasts : List String
  pub signed_out : Bool

-- What a search has taken from the page when it was submitted.
pub record Submitted : Type 0 where
  pub request_id : ℕ
  pub profile : String
  pub input : String
  pub groups : List SearchGroup
  pub domains : List SiteDomain
  pub now : String

-- What a request awaits: the profile's plan, or the aggregated results of a search or of an edit.
pub data Awaiting : Type 0 where
  plan : Submitted → Awaiting
  results : (request_id : ℕ) → (domains : List SiteDomain) → (query : String) → Awaiting
  edited_results : (request_id : ℕ) → (domains : List SiteDomain) → (query : String) → Awaiting
  ended : Awaiting

-- The end of `searchJobs` where it does not show aggregated results.
abbrev show_sites : List SiteDomain → String → Tab → Tab
show_sites domains query s = record s {
  aggregated_results = none;
  site_queries = site_queries_for domains query;
  message =
      if no_domains domains
      then "Showing Google job results in the results column."
      else String.◌++◌ "Queued " (
          String.◌++◌ (decimal (length domains))
            " site searches — use Previous/Next site in the results column to browse them.");
  loading = false;
}

abbrev added_group : String → List String → List SearchGroup
added_group now [] = []
added_group now (t ∷ ts) =
    record { id = String.◌++◌ "custom-" now; label = "Added terms"; terms = t ∷ ts } ∷ []

abbrev submit_query : Submitted → List SearchGroup → List SiteDomain → String → Tab → Tab × Awaiting
submit_query r groups domains query s =
    let shown : Tab = record s {
      groups = groups;
      query_input = if str_eq s.query_input r.input then "" else s.query_input;
      address_query = some query;
    } in
    if is_nonempty r.profile && not (no_domains domains)
    then (shown, results r.request_id domains query)
    else (show_sites domains query shown, ended)

-- A message that is also put up as a toast, with which a search ends.
abbrev complain : String → Tab → Tab
complain detail s = record s { message = detail; loading = false; toasts = detail ∷ s.toasts }

-- From the groups and sites of the search up to the next await.
unfoldable pub prepare : Submitted → List SearchGroup → List SiteDomain → Tab → Tab × Awaiting
unfolding split_new_terms build_query site_queries_for decimal
prepare r base domains s =
    let groups = base ++ added_group r.now (split_new_terms r.input) in
    if not (is_nonempty (build_query groups))
    then (complain "Enter a job title or select a professional profile." s, ended)
    else submit_query r groups domains (build_query groups) s

unfoldable pub search_jobs : (now : String) → Tab → Tab × Awaiting
unfolding prepare
search_jobs now s =
    let id = s.sequence + 1 in
    let r : Submitted = record {
      request_id = id;
      profile = s.profile_id;
      input = s.query_input;
      groups = s.groups;
      domains = s.site_domains;
      now = now;
    } in
    let started : Tab = record s {
      sequence = id;
      loading = true;
      message = "Preparing your search…";
    } in
    if is_nonempty r.profile
    then (if no_groups r.groups || no_domains r.domains
        then (started, plan r)
        else prepare r r.groups r.domains started)
    else prepare r r.groups [] (record started { site_domains = [] })

-- The `catch` and `finally` of `searchJobs`, while it is current.
abbrev fails : String → Tab → Tab × Awaiting
fails detail s = (complain detail s, ended)

-- An answer: the plan's intent and sites, the results that are shown, no aggregated results,
-- an ended session in place of them, or a thrown error.
pub data Answer : Type 0 where
  planned : (intent : String) → (domains : List SiteDomain) → Answer
  aggregated : Json → Answer
  not_aggregated : Answer
  signed_out : Answer
  thrown : (detail : String) → Answer

abbrev take_plan : Submitted → Answer → Tab → Tab × Awaiting
take_plan r (planned intent domains) s =
    prepare r (if no_groups r.groups then parse_query intent else r.groups) domains
      (record s { site_domains = domains })
take_plan r signed_out s =
    prepare r (if no_groups r.groups then parse_query "" else r.groups) []
      (record s { site_domains = [] })
take_plan r (thrown detail) s = fails detail s
take_plan r _ s = (s, plan r)

abbrev take_results : List SiteDomain → String → Answer → Tab → Tab
take_results domains query (aggregated v) s = record s {
  aggregated_results = some v;
  site_queries = [];
  message = "Search complete.";
  loading = false;
}
take_results domains query signed_out s = record s {
  site_queries = [];
  message = "Search complete.";
  loading = false;
}
take_results domains query _ s = show_sites domains query s

abbrev show_edit : List SiteDomain → String → Tab → Tab
show_edit domains query s = record s {
  aggregated_results = none;
  site_queries = site_queries_for domains query;
}

abbrev take_edit : List SiteDomain → String → Answer → Tab → Tab
take_edit domains query (aggregated v) s = record s {
  aggregated_results = some v;
  site_queries = [];
}
take_edit domains query signed_out s = record s { site_queries = [] }
take_edit domains query _ s = show_edit domains query s

-- An ended session leaves for the sign-in page, whether or not the request is still current.
abbrev leave : Answer → Tab → Tab
leave signed_out s = record s { signed_out = true }
leave a s = s

-- `isCurrent()`, looked at before anything of an answer is shown.
unfoldable pub deliver : Answer → Awaiting → Tab → Tab × Awaiting
unfolding prepare parse_query site_queries_for decimal
deliver a (plan r) s =
    if r.request_id == s.sequence then take_plan r a (leave a s) else (leave a s, ended)
deliver a (results id domains query) s =
    (if id == s.sequence then take_results domains query a (leave a s) else leave a s, ended)
deliver a (edited_results id domains query) s =
    (if id == s.sequence then take_edit domains query a (leave a s) else leave a s, ended)
deliver a ended s = (s, ended)

abbrev without_term : String → String → SearchGroup → SearchGroup
without_term id term group =
    if str_eq group.id id
    then record group { terms = keep (λ item. not (str_eq item term)) group.terms }
    else group

unfoldable pub remaining : String → String → List SearchGroup → List SearchGroup
remaining id term groups = keep has_terms (map (without_term id term) groups)

abbrev is_some' : Option Json → Bool
is_some' none = false
is_some' (some v) = true

abbrev nonempty_query : String → Option String
nonempty_query query = if is_nonempty query then some query else none

unfoldable pub remove_term : String → String → Tab → Tab × Awaiting
unfolding remaining build_query site_queries_for
remove_term id term s =
    let next = remaining id term s.groups in
    let query = build_query next in
    let edited : Tab = record s {
      sequence = s.sequence + 1;
      loading = false;
      groups = next;
      address_query = nonempty_query query;
    } in
    if is_some' s.aggregated_results && is_nonempty s.profile_id && is_nonempty query
    then (edited, edited_results (s.sequence + 1) s.site_domains query)
    else (show_edit s.site_domains query edited, ended)

unfoldable pub clear_results : Tab → Tab
clear_results s = record s {
  sequence = s.sequence + 1;
  loading = false;
  groups = [];
  query_input = "";
  site_queries = [];
  aggregated_results = none;
  address_query = none;
  message = "Search results cleared.";
}

-- `onChange` of the profile's select.
unfoldable pub choose_profile : String → Tab → Tab
choose_profile value s = record s {
  sequence = s.sequence + 1;
  loading = false;
  message = "";
  profile_id = value;
  groups = [];
  site_domains = [];
  site_queries = [];
  aggregated_results = none;
  address_query = none;
}

-- The groups but for the sites, and how many terms they show.
abbrev is_visible : SearchGroup → Bool
is_visible group = not (str_eq group.label "Sites")

unfoldable pub term_count : List SearchGroup → ℕ
term_count [] = 0
term_count (g ∷ gs) = if is_visible g then length g.terms + term_count gs else term_count gs
