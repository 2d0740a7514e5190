-- ===== src/Mobile/Consulting/Actions.antt =====
-- The handlers of the consulting screen: apps/mobile/src/screens/ConsultingScreen.tsx, from `load` to
-- `advanceLead`. A number that is typed is read by the platform.
use kall.Common.{
  ℕ, ◌+◌, ◌-◌, code, String, Bool, true, false, not, ◌&&◌, ◌||◌, Option, none, some, List, [], ◌∷◌,
  str_eq, ltb, leb, ◌==◌, if◌then◌else◌, head, length,
}
use Prim.Native.String
use kall.Common.Text.{trim, is_nonempty}
use kall.Common.Decimal.{decimal}
use kall.Mobile.Task.{
  Task, give, call, returned, ◌>>=◌, ◌>>◌, set, await, catch, finally, api_message,
}
use kall.Mobile.OpportunityDetail.{or_else}
use kall.Mobile.Opportunities.{truthy}
use kall.Mobile.Consulting.{
  Lead, Practice, Workspace, CareerProfile, DiscoveryPlan, Editor, lead, proposal, follow_up,
  engagement, Request, fetch_workspace, fetch_career_profiles, fetch_discovery_plan,
  update_practice, create_lead, update_lead, create_proposal, create_follow_up, create_engagement,
  Response, Form, Offer, Screen, stages,
}

abbrev pub Handler : Type 0 → Type 0
Handler A = Task Screen Request Response A

abbrev pub say : String → Screen → Screen
say message s = record s { message = message }

abbrev pub text_of : Option String → String
text_of none = ""
text_of (some t) = t

-- What `load` puts into the fields of the offer, with the platform's text of a rate in dollars.
unfoldable pub offer_of : (dollars : ℕ → String) → Option Practice → Offer
offer_of dollars none = record {
  available = false;
  engagement_types = [];
  rate = "";
  rate_basis = "hour";
  availability = "";
  agreement_url = "";
}
offer_of dollars (some p) = record {
  available = p.available;
  engagement_types = p.engagement_types;
  rate = elim p.rate_cents [ none ↦ "" | some cents ↦ dollars cents ];
  rate_basis = p.rate_basis;
  availability = text_of p.availability_note;
  agreement_url = text_of p.agreement_url;
}

abbrev first_id : List CareerProfile → Option ℕ
first_id [] = none
first_id (p ∷ ps) = some p.id

-- `Promise.all`: both requests are sent, and the first failure of them is thrown.
abbrev fetch_both : Handler (Workspace × List CareerProfile)
fetch_both = call fetch_workspace (λ x.
    call fetch_career_profiles
      (λ y. do workspace ← returned x; profiles ← returned y; give (workspace, profiles)))

unfoldable pub load : (dollars : ℕ → String) → Handler Unit
unfolding ◌>>=◌ catch finally api_message offer_of
load dollars =
    finally
      (catch
        (do
          (workspace, profiles) ← fetch_both
          set (λ s. record s {
            workspace = workspace;
            offer = offer_of dollars workspace.practice;
            profiles = profiles;
            profile_id = or_else s.profile_id (first_id profiles);
            message = "";
          }))
        (λ e. set (say (api_message "Unable to load consulting records." e))))
      (λ s. record s { loading = false })

abbrev found_text : DiscoveryPlan → String
found_text plan =
    if ltb 0 (length plan.results)
    then String.◌++◌ "Found " (
        String.◌++◌ (decimal (length plan.results)) (
          String.◌++◌ " public " (
            String.◌++◌ (if length plan.results == 1 then "opening" else "openings")
              " for this direction.")))
    else if plan.search_enabled
    then "No public openings matched right now. Add a specialty above or start with people you know."
    else "Kall prepared searches and qualification questions for this direction."

unfoldable pub discover_leads : (profile : ℕ) (focus : String) (announce : Bool) → Handler Unit
unfolding ◌>>=◌ catch finally api_message
discover_leads profile focus announce = do
  set (λ s. record s { discovering = true })
  finally
      (catch
        (do
          plan ← await (fetch_discovery_plan profile (trim focus))
          set (λ s. record s { discovery = some plan })
          if announce then set (say (found_text plan)) else give tt)
        (λ e. set (say (api_message "Kall could not prepare consulting searches." e))))
      (λ s. record s { discovering = false })

-- `openEditor`, with what it fills in.
unfoldable pub open_editor :
    Editor
    → (selected : Option ℕ) → (organization title details segment source : Option String)
    → (drawn : Screen) → Handler Unit
open_editor editor selected organization title details segment source drawn = set (λ s. record s {
  editor = some editor;
  form = record s.form {
    lead_id =
        or_else selected (elim (head drawn.workspace.leads) [ none ↦ none | some x ↦ some x.id ]);
    organization = text_of organization;
    title = text_of title;
    details = text_of details;
    fee = "";
    segment = elim segment [ none ↦ "warm_contact" | some t ↦ t ];
    source = text_of source;
    vaettir = false;
  };
})

-- `action`: the work, the reload, and what the person is told.
unfoldable pub action : (dollars : ℕ → String) → Handler Unit → (success : String) → Handler Unit
unfolding ◌>>=◌ catch load api_message
action dollars work success =
    catch (do set (say "Saving…"); work; load dollars; set (say success))
      (λ e. set (say (api_message "Kall could not save that change." e)))

unfoldable pub refine_leads : (profile : Option ℕ) (focus : String) → Handler Unit
unfolding discover_leads
refine_leads profile focus = elim (truthy profile) [
  | none ↦ set (say "Create a professional profile before asking Kall to find leads.")
  | some id ↦ discover_leads id focus true
]

abbrev pub or_none : String → Option String
or_none t = if is_nonempty t then some t else none

unfoldable pub practice_of : (cents : String → Option ℕ) → Offer → Practice
unfolding trim
practice_of cents o = record {
  available = o.available;
  engagement_types = o.engagement_types;
  rate_cents = if is_nonempty o.rate then cents o.rate else none;
  rate_basis = o.rate_basis;
  currency = "USD";
  availability_note = or_none (trim o.availability);
  agreement_url = or_none (trim o.agreement_url);
}

unfoldable pub save_practice :
    (dollars : ℕ → String) (cents : String → Option ℕ) → Offer → Handler Unit
unfolding action practice_of
save_practice dollars cents o =
    action dollars (await (update_practice (practice_of cents o))) "Consulting offer saved."

-- The record that an editor sends.
unfoldable pub created : (cents : String → Option ℕ) → Editor → Form → Request
created cents lead f = create_lead (record {
  organization = f.organization;
  opportunity_name = f.title;
  relationship_segment = f.segment;
  source = or_none f.source;
  projected_value_cents = if is_nonempty f.fee then cents f.fee else none;
  next_step = or_none f.details;
})
created cents proposal f = create_proposal (record {
  lead_id = f.lead_id;
  title = f.title;
  summary = or_none f.details;
  deliverables = if is_nonempty f.details then f.details ∷ [] else "Scope review" ∷ [];
  fee_cents = if is_nonempty f.fee then cents f.fee else none;
})
created cents follow_up f = create_follow_up (record {
  lead_id = f.lead_id;
  due_on = f.due_on;
  channel = "email";
  purpose = f.title;
  draft_message = or_none f.details;
})
created cents engagement f = create_engagement (record {
  lead_id = f.lead_id;
  client_name = f.organization;
  name = f.title;
  status = "planned";
  fee_cents = if is_nonempty f.fee then cents f.fee else none;
  design_partner_product = if f.vaettir then some "vaettir" else none;
  design_partner_stage = if f.vaettir then some "discovery" else none;
})

abbrev names_client : Editor → Bool
names_client lead = true
names_client engagement = true
names_client _ = false

abbrev is_proposal : Editor → Bool
is_proposal proposal = true
is_proposal _ = false

abbrev is_absent : Option ℕ → Bool
is_absent none = true
is_absent (some id) = false

-- A field that the editor requires is empty.
unfoldable pub is_incomplete : Editor → Form → Bool
unfolding trim
is_incomplete editor f =
    not (is_nonempty (trim f.title))
    || (names_client editor && not (is_nonempty (trim f.organization)))
    || (is_proposal editor && not (is_nonempty (trim f.details)))
    || (not (names_client editor) && is_absent (truthy f.lead_id))

abbrev saved_text : Editor → String
saved_text follow_up = "Follow-up saved."
saved_text _ = "Record saved."

unfoldable pub send_created : (cents : String → Option ℕ) → Editor → Form → Handler Unit
unfolding created
send_created cents lead f = await (created cents lead f)
send_created cents proposal f = await (created cents proposal f)
send_created cents follow_up f = await (created cents follow_up f)
send_created cents engagement f = await (created cents engagement f)

-- `saveEditor` of an open editor and the fields that it captured.
unfoldable pub save_editor :
    (dollars : ℕ → String) (cents : String → Option ℕ) → Editor → Form → Handler Unit
unfolding action is_incomplete send_created
save_editor dollars cents editor f =
    if is_incomplete editor f
    then set (say "Complete the required fields first.")
    else action dollars (do send_created cents editor f; set (λ s. record s { editor = none }))
        (saved_text editor)

-- `STAGES.indexOf(stage) + 1`: 0 for a text that is none of them.
unfoldable pub after_index : String → List String → ℕ
after_index stage [] = 0
after_index stage (x ∷ xs) =
    let rest = after_index stage xs in
    if str_eq x stage then 1 else if rest == 0 then 0 else rest + 1

abbrev at : ℕ → List String → String
at n [] = ""
at n (x ∷ xs) = let rest = at (n - 1) xs in if n == 0 then x else rest

-- `STAGES[Math.min(current + 1, 4)]`
unfoldable pub next_stage : String → String
unfolding after_index
next_stage stage = let next = after_index stage stages in at (if leb next 4 then next else 4) stages

unfoldable pub label : String → String
label String.[] = ""
label (String.◌∷◌ c s) =
    let rest = label s in if code c == b'_' then String.◌∷◌ " " rest else String.◌∷◌ c rest

unfoldable pub advance_lead : (dollars : ℕ → String) → Lead → Handler Unit
unfolding action
advance_lead dollars x =
    let stage = next_stage x.stage in
    action dollars (await (update_lead x.id stage))
      (String.◌++◌ "Lead moved to " (String.◌++◌ (label stage) "."))

-- The button "Advance" is enabled.
unfoldable pub can_advance : Lead → Bool
can_advance x = not (str_eq x.stage "won" || str_eq x.stage "lost")
