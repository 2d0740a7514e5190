-- ===== src/Mobile/Growth/Tests.antt =====
-- The growth screen at a concrete goal.
use kall.Common.{ℕ, String, ◌≡◌, refl, true, false, Option, none, some, [], ◌∷◌, Memᴰ}
use kall.Mobile.Task.{Result, ok, failed, api, Server, run}
use kall.Mobile.Growth.{
  Goal, Resource, Plan, Request, fetch_growth_dashboard, create_goal, generate_plan, analyze_skills,
  import_resource, search_plan_resources, pin_resource, Response, NewGoal, empty_form, Screen,
}
use kall.Mobile.Growth.Markdown.{plan_as_markdown}
use kall.Mobile.Growth.Handlers.{submit_new_goal}
use kall.Mobile.Growth.Laws.{outcome, submit_new_goal-outcome}

abbrev goal : Goal
goal = record {
  id = 4;
  title = "Lead";
  target_role = "QA lead";
  target_industry = some "SaaS";
  status = "active";
}

abbrev course : Resource
course = record { id = 1; title = "Course"; url = "https://a.example"; saved = true }

abbrev plan : Plan
plan = record {
  id = 7;
  summary = "Step by step.";
  current_strengths = [];
  skill_gaps = "Coaching" ∷ [];
  recommended_roles = [];
  milestones = [];
  resources =
      record { id = 2; title = "Book"; url = "https://b.example"; saved = false } ∷ course ∷ [];
  skill_assessments = [];
}

abbrev resource_line-Mem_course : Memᴰ course plan.resources
resource_line-Mem_course = Memᴰ.tail (Memᴰ.head refl)

shared :
    plan_as_markdown goal plan
    ≡ "# Lead\nTarget role: QA lead · SaaS\n\nStep by step.\n\n## Priority gaps\n- Coaching\n\n## Saved resources\n- [Course](https://a.example)\n\n_Exported from Kall._"
unfolding plan_as_markdown
shared = refl

-- The plan of the goal that is created fails.
abbrev answer : (r : Request) → Result (Response r)
answer fetch_growth_dashboard = ok []
answer (create_goal input) = ok goal
answer (generate_plan id regenerate) = failed (api "Busy.")
answer (analyze_skills id text) = ok tt
answer (import_resource id url title description) = ok tt
answer (search_plan_resources id category) = ok (record { enabled = false; results = [] })
answer (pin_resource id saved) = ok tt

abbrev server : Server Request Response
server sent r = answer r

abbrev form : NewGoal
form = record empty_form { title = "Lead"; target_role = "QA lead" }

abbrev screen : Screen
screen = record {
  goals = [];
  loading = false;
  refreshing = false;
  message = "";
  show_new_goal = true;
  form = form;
  creating = false;
  card = record {
    answer = "";
    analyzing = false;
    resource_url = "";
    resource_title = "";
    saving_resource = false;
    pending_resource_id = none;
    hits = none;
    hits_category = none;
    searching_hits = false;
    saving_hit_url = none;
  };
}

abbrev five : String → Option ℕ
five text = some 5

submit_new_goal-outcome_example :
    let e = run server (submit_new_goal five form) screen [] in
    (e.sent, e.screen.form, e.screen.show_new_goal) ≡ outcome server five form screen
submit_new_goal-outcome_example = submit_new_goal-outcome server five form screen
