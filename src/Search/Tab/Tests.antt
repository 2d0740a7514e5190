-- ===== src/Search/Tab/Tests.antt =====
-- The search page at a concrete state.
use kall.Common.{List, ◌∷◌, ◌≡◌, refl, true, false, none, []}
use kall.Search.Tab.{Tab, Submitted, plan, results, ended, signed_out, thrown, deliver, search_jobs}
use kall.Search.Tab.Stale.{
  Event, types, chooses, searches, after, overtaken_answer, is_settled, search_settles,
}

abbrev tab : Tab
tab = record {
  profile_id = "7";
  query_input = "remote, QA";
  groups = [];
  site_domains = [];
  site_queries = [];
  aggregated_results = none;
  message = "";
  loading = false;
  sequence = 4;
  address_query = none;
  toasts = [];
  signed_out = false;
}

abbrev submitted : Submitted
submitted = record {
  request_id = 3;
  profile = "6";
  input = "";
  groups = [];
  domains = [];
  now = "1";
}

-- A profile is chosen and searched while the plan of a search is awaited.
abbrev happened : List Event
happened = types "QA" ∷ chooses "8" ∷ searches "2" ∷ []

overtaken_answer_example :
    let now = after happened (record tab { sequence = 3 }) in
    deliver signed_out (plan submitted) now ≡ (record now { signed_out = true }, ended)
overtaken_answer_example =
    overtaken_answer signed_out (plan submitted) happened (record tab { sequence = 3 }) refl refl

search_settles_example :
    (is_settled (search_jobs "1" tab) ≡ true)
    × (is_settled (deliver (thrown "x") (plan submitted) (record tab { sequence = 3 })) ≡ true)
    × (is_settled (deliver (thrown "x") (results 4 [] "QA") tab) ≡ true)
search_settles_example = search_settles "1" (thrown "x") submitted [] "QA" tab
