-- ===== src/Mobile/Consulting/Tests.antt =====
-- The consulting screen against a concrete server.
use kall.Common.{
  ℕ, String, ◌≡◌, refl, true, false, not, ◌&&◌, Option, none, some, [], ◌∷◌, if◌then◌else◌,
}
use kall.Mobile.Task.{await, Result, ok, failed, api, Server, run}
use kall.Mobile.Consulting.{
  Lead, no_workspace, DiscoveryPlan, lead, proposal, Request, fetch_workspace,
  fetch_career_profiles, fetch_discovery_plan, update_practice, create_lead, update_lead,
  create_proposal, create_follow_up, create_engagement, approve_proposal, approve_follow_up,
  complete_follow_up, update_engagement, Response, Form, Offer, Screen,
}
use kall.Mobile.Consulting.Actions.{action, say, save_editor, created, is_incomplete, can_advance}
use kall.Mobile.Consulting.Buttons.{action-message, outcome}
use kall.Mobile.Consulting.Laws.{Describes, granted, reload, save_editor-sent}

abbrev plan : DiscoveryPlan
plan = record { profile = 1; search_enabled = true; results = [] }

abbrev answer : (r : Request) → Result (Response r)
answer fetch_workspace = ok no_workspace
answer fetch_career_profiles = ok (record { id = 1; name = "Testing" } ∷ [])
answer (fetch_discovery_plan profile focus) = ok plan
answer (update_practice practice) = ok tt
answer (create_lead input) = ok tt
answer (update_lead id stage) = ok tt
answer (create_proposal input) = failed (api "Busy.")
answer (create_follow_up input) = ok tt
answer (create_engagement input) = ok tt
answer (approve_proposal id) = ok tt
answer (approve_follow_up id) = ok tt
answer (complete_follow_up id) = ok tt
answer (update_engagement id stage) = ok tt

abbrev server : Server Request Response
server sent r = answer r

abbrev dollars : ℕ → String
dollars cents = "250"

abbrev cents : String → Option ℕ
cents text = some 25000

abbrev form : Form
form = record {
  lead_id = none;
  organization = "Example";
  title = "Review";
  details = "";
  fee = "250";
  segment = "referral";
  source = "";
  due_on = "2026-02-01";
  vaettir = false;
}

abbrev offer : Offer
offer = record {
  available = false;
  engagement_types = [];
  rate = "";
  rate_basis = "hour";
  availability = "";
  agreement_url = "";
}

abbrev screen : Screen
screen = record {
  workspace = no_workspace;
  profiles = [];
  profile_id = none;
  discovery = none;
  discovering = false;
  loading = false;
  message = "";
  warm_only = false;
  editor = some lead;
  form = form;
  offer = offer;
}

-- A proposal needs its details.
needs_details : is_incomplete proposal form ≡ true
unfolding is_incomplete
needs_details = refl

save_editor-sent_example :
    let e = run server (save_editor dollars cents lead form) screen [] in
    let r = created cents lead form in
    (e.sent ≡ (
      if is_incomplete lead form
      then []
      else r ∷ reload server dollars cents screen form (granted r (server [] r))))
    × (e.screen.editor ≡ (
        if not (is_incomplete lead form) && granted r (server [] r) then none else screen.editor))
    × Describes cents lead form r
save_editor-sent_example = save_editor-sent server dollars cents screen form lead

abbrev paused_lead : Lead
paused_lead = record {
  id = 4;
  organization = "Example";
  opportunity_name = "Review";
  relationship_segment = "referral";
  stage = "paused";
  projected_value_cents = none;
  next_step = none;
}

paused_can_advance : can_advance paused_lead ≡ true
unfolding can_advance
paused_can_advance = refl

action-message_example :
    (run server
      (action dollars (await (approve_follow_up 4)) "Follow-up approved.")
      screen
      []).screen.message
    ≡ outcome server dollars "Follow-up approved."
        (run server (await (approve_follow_up 4)) (say "Saving…" screen) []).value
action-message_example =
    action-message server dollars (await (approve_follow_up 4)) "Follow-up approved." screen []
