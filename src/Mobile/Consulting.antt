-- ===== src/Mobile/Consulting.antt =====
-- The consulting screen of the phone: its data from apps/mobile/src/api/consulting.ts, its state and its
-- handlers from apps/mobile/src/screens/ConsultingScreen.tsx.
pub mod Actions
pub mod Buttons
pub mod Laws
pub mod Tests
use kall.Common.{
  ℕ, String, Bool, not, ◌||◌, Option, none, List, [], ◌∷◌, ◌++◌, str_eq, if◌then◌else◌, keep,
  contains,
}

pub record Lead : Type 0 where
  pub id : ℕ
  pub organization : String
  pub opportunity_name : String
  pub relationship_segment : String
  pub stage : String
  pub projected_value_cents : Option ℕ
  pub next_step : Option String

pub record Proposal : Type 0 where
  pub id : ℕ
  pub lead_id : ℕ
  pub title : String
  pub summary : Option String
  pub deliverables : List String
  pub fee_cents : Option ℕ
  pub status : String

pub record FollowUp : Type 0 where
  pub id : ℕ
  pub lead_id : ℕ
  pub due_on : String
  pub channel : String
  pub purpose : String
  pub draft_message : Option String
  pub status : String

pub record Engagement : Type 0 where
  pub id : ℕ
  pub lead_id : Option ℕ
  pub client_name : String
  pub name : String
  pub status : String
  pub fee_cents : Option ℕ
  pub design_partner_product : Option String
  pub design_partner_stage : Option String

-- The offer as the server keeps it, with its rate in cents.
pub record Practice : Type 0 where
  pub available : Bool
  pub engagement_types : List String
  pub rate_cents : Option ℕ
  pub rate_basis : String
  pub currency : String
  pub availability_note : Option String
  pub agreement_url : Option String

pub record Workspace : Type 0 where
  pub leads : List Lead
  pub proposals : List Proposal
  pub follow_ups : List FollowUp
  pub engagements : List Engagement
  pub practice : Option Practice

pub record CareerProfile : Type 0 where
  pub id : ℕ
  pub name : String

-- A plan by what the handlers read of it; a result is its address.
pub record DiscoveryPlan : Type 0 where
  pub profile : ℕ
  pub search_enabled : Bool
  pub results : List String

pub data Editor : Type 0 where
  lead proposal follow_up engagement : Editor

pub record LeadInput : Type 0 where
  pub organization : String
  pub opportunity_name : String
  pub relationship_segment : String
  pub source : Option String
  pub projected_value_cents : Option ℕ
  pub next_step : Option String

pub record ProposalInput : Type 0 where
  pub lead_id : Option ℕ
  pub title : String
  pub summary : Option String
  pub deliverables : List String
  pub fee_cents : Option ℕ

pub record FollowUpInput : Type 0 where
  pub lead_id : Option ℕ
  pub due_on : String
  pub channel : String
  pub purpose : String
  pub draft_message : Option String

pub record EngagementInput : Type 0 where
  pub lead_id : Option ℕ
  pub client_name : String
  pub name : String
  pub status : String
  pub fee_cents : Option ℕ
  pub design_partner_product : Option String
  pub design_partner_stage : Option String

pub data Request : Type 0 where
  fetch_workspace fetch_career_profiles : Request
  fetch_discovery_plan : (profile : ℕ) (focus : String) → Request
  update_practice : Practice → Request
  create_lead : LeadInput → Request
  update_lead : (id : ℕ) (stage : String) → Request
  create_proposal : ProposalInput → Request
  create_follow_up : FollowUpInput → Request
  create_engagement : EngagementInput → Request
  approve_proposal approve_follow_up complete_follow_up : ℕ → Request
  update_engagement : (id : ℕ) (design_partner_stage : String) → Request

abbrev pub Response : Request → Type 0
Response fetch_workspace = Workspace
Response fetch_career_profiles = List CareerProfile
Response (fetch_discovery_plan profile focus) = DiscoveryPlan
Response _ = Unit

-- The fields of the editor.
pub record Form : Type 0 where
  pub lead_id : Option ℕ
  pub organization : String
  pub title : String
  pub details : String
  pub fee : String
  pub segment : String
  pub source : String
  pub due_on : String
  pub vaettir : Bool

-- The fields of the offer.
pub record Offer : Type 0 where
  pub available : Bool
  pub engagement_types : List String
  pub rate : String
  pub rate_basis : String
  pub availability : String
  pub agreement_url : String

pub record Screen : Type 0 where
  pub workspace : Workspace
  pub profiles : List CareerProfile
  pub profile_id : Option ℕ
  pub discovery : Option DiscoveryPlan
  pub discovering : Bool
  pub loading : Bool
  pub message : String
  pub warm_only : Bool
  pub editor : Option Editor
  pub form : Form
  pub offer : Offer

abbrev pub no_workspace : Workspace
no_workspace = record {
  leads = [];
  proposals = [];
  follow_ups = [];
  engagements = [];
  practice = none;
}

-- `WARM` and `STAGES`
abbrev pub warm : List String
warm = "warm_contact" ∷ "former_colleague" ∷ "past_client" ∷ "referral" ∷ "community" ∷ []

abbrev pub stages : List String
stages = "identified" ∷ "qualified" ∷ "proposal" ∷ "negotiation" ∷ "won" ∷ "lost" ∷ "paused" ∷ []

-- The leads of the list: all, or those of a warm segment.
unfoldable pub shown_leads : Screen → List Lead
shown_leads s =
    keep (λ x. not s.warm_only || contains x.relationship_segment warm) s.workspace.leads

-- `toggleEngagementType`
unfoldable pub toggle_engagement_type : String → List String → List String
toggle_engagement_type value current =
    if contains value current
    then keep (λ item. not (str_eq item value)) current
    else current ++ value ∷ []
