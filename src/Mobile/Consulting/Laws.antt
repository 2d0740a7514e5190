-- ===== src/Mobile/Consulting/Laws.antt =====
-- What the handlers of the consulting screen send and leave behind: apps/mobile/src/screens/
-- ConsultingScreen.tsx.
use kall.Common.{
  ℕ, String, ◌≡◌, refl, ◌∙◌, ap, inl, inr, Bool, Bool-cases, true, false, not, ◌&&◌, ◌||◌, Option,
  none, some, List, [], ◌∷◌, arith, str_eq, eq_iff, if◌then◌else◌, keep, head, contains, any-append,
}
use kall.Common.Text.{is_nonempty}
use kall.Mobile.Task.{Result, ok, failed, Server, run}
use kall.Mobile.Consulting.{
  update_lead, Lead, Editor, lead, proposal, follow_up, engagement, Request, fetch_workspace,
  fetch_career_profiles, Response, Form, Screen, toggle_engagement_type, create_lead,
  create_proposal, create_follow_up, create_engagement,
}
use kall.Mobile.Consulting.Actions.{
  save_editor, is_incomplete, created, next_stage, can_advance, advance_lead,
}

abbrev pub is_ok : {A : Type 0} → Result A → Bool
is_ok (ok a) = true
is_ok (failed e) = false

abbrev pub granted : (r : Request) → Result (Response r) → Bool
granted r x = is_ok x

-- A fee that is typed, as the record has it.
abbrev IsFee : (cents : String → Option ℕ) → (typed : String) → Option ℕ → Type 0
IsFee cents typed fee = fee ≡ (if is_nonempty typed then cents typed else none)

abbrev IsNote : (typed : String) → Option String → Type 0
IsNote typed note = note ≡ (if is_nonempty typed then some typed else none)

-- The record that a request creates is of an editor's kind and has what its fields say.
abbrev pub Describes : (cents : String → Option ℕ) → Editor → Form → Request → Type 0
Describes cents lead f (create_lead x) =
    (x.organization ≡ f.organization)
    × (x.opportunity_name ≡ f.title)
    × (x.relationship_segment ≡ f.segment)
    × IsNote f.source x.source
    × IsNote f.details x.next_step
    × IsFee cents f.fee x.projected_value_cents
Describes cents proposal f (create_proposal x) =
    (x.lead_id ≡ f.lead_id)
    × (x.title ≡ f.title)
    × IsNote f.details x.summary
    × (x.deliverables ≡ (if is_nonempty f.details then f.details else "Scope review") ∷ [])
    × IsFee cents f.fee x.fee_cents
Describes cents follow_up f (create_follow_up x) =
    (x.lead_id ≡ f.lead_id)
    × (x.due_on ≡ f.due_on)
    × (x.purpose ≡ f.title)
    × (x.channel ≡ "email")
    × IsNote f.details x.draft_message
Describes cents engagement f (create_engagement x) =
    (x.lead_id ≡ f.lead_id)
    × (x.client_name ≡ f.organization)
    × (x.name ≡ f.title)
    × (x.status ≡ "planned")
    × (x.design_partner_product ≡ (if f.vaettir then some "vaettir" else none))
    × IsFee cents f.fee x.fee_cents
Describes cents editor f r = ⊥

created-Describes :
    (cents : String → Option ℕ) (editor : Editor) (f : Form)
    → Describes cents editor f (created cents editor f)
unfolding created
created-Describes cents lead f = (refl, refl, refl, refl, refl, refl)
created-Describes cents proposal f = (refl, refl, refl, ground arith, refl)
created-Describes cents follow_up f = (refl, refl, refl, refl, refl)
created-Describes cents engagement f = (refl, refl, refl, refl, refl, refl)

module _ (server : Server Request Response) (dollars : ℕ → String) (cents : String → Option ℕ)
    (s : Screen) (f : Form) where
  abbrev pub reload : Bool → List Request
  reload true = fetch_workspace ∷ fetch_career_profiles ∷ []
  reload false = []

  save_editor-asks :
      (editor : Editor)
      → let e = run server (save_editor dollars cents editor f) s [] in
        let r = created cents editor f in
        let saved = granted r (server [] r) in
        (e.sent ≡ (if is_incomplete editor f then [] else r ∷ reload saved))
        × (e.screen.editor ≡ (if not (is_incomplete editor f) && saved then none else s.editor))
  unfolding save_editor run
  save_editor-asks lead = ground arith
  save_editor-asks proposal = ground arith
  save_editor-asks follow_up = ground arith
  save_editor-asks engagement = ground arith

  -- Saving an editor whose required fields are incomplete sends nothing and leaves it open; otherwise it
  -- sends one request, which creates a record of the editor's kind with what its fields say, reloads the
  -- workspace and closes the editor if that is granted, and leaves the editor open if not.
  pub save_editor-sent :
      (editor : Editor)
      → let e = run server (save_editor dollars cents editor f) s [] in
        let r = created cents editor f in
        let saved = granted r (server [] r) in
        (e.sent ≡ (if is_incomplete editor f then [] else r ∷ reload saved))
        × (e.screen.editor ≡ (if not (is_incomplete editor f) && saved then none else s.editor))
        × Describes cents editor f r
  save_editor-sent editor =
      let asks = save_editor-asks editor in (asks.0, asks.1, created-Describes cents editor f)

contains-keep :
    (v x : String) (xs : List String)
    → contains x (keep (λ item. not (str_eq item v)) xs)
      ≡ (if str_eq v x then false else contains x xs)
contains-keep v x [] = ground arith
contains-keep v x (y ∷ ys) =
    ground (arith, contains-keep v x ys, eq_iff y v, eq_iff y x, eq_iff v x)

-- Toggling an engagement type turns that type on or off and no other.
pub contains-toggle_engagement_type :
    (v x : String) (xs : List String)
    → contains x (toggle_engagement_type v xs)
      ≡ (if str_eq v x then not (contains x xs) else contains x xs)
unfolding toggle_engagement_type
contains-toggle_engagement_type v x xs =
    ground (arith, contains-keep v x xs, any-append (λ k. str_eq k x) xs (v ∷ []), eq_iff v x)

-- Where a lead goes that can be advanced: to the stage after its own up to the one that is won, to the
-- first stage from a text that is none of them, and to the one that is won from a paused lead.
abbrev pub following : String → String
following stage =
    if str_eq "identified" stage
    then "qualified"
    else if str_eq "qualified" stage
    then "proposal"
    else if str_eq "proposal" stage
    then "negotiation"
    else if str_eq "negotiation" stage || str_eq "paused" stage
    then "won"
    else "identified"

next_stage-eq :
    (stage : String)
    → str_eq "won" stage ≡ false
    → str_eq "lost" stage ≡ false
    → next_stage stage ≡ following stage
unfolding next_stage
next_stage-eq stage h k = elim (Bool-cases (str_eq "identified" stage)) [
  | inl a ↦ rw a refl
  | inr a ↦ elim (Bool-cases (str_eq "qualified" stage)) [
    | inl b ↦ rw (a, b) refl
    | inr b ↦ elim (Bool-cases (str_eq "proposal" stage)) [
      | inl c ↦ rw (a, b, c) refl
      | inr c ↦ elim (Bool-cases (str_eq "negotiation" stage)) [
        | inl d ↦ rw (a, b, c, d) refl
        | inr d ↦ elim (Bool-cases (str_eq "paused" stage)) [
          | inl e ↦ rw (a, b, c, d, h, k, e) refl
          | inr e ↦ rw (a, b, c, d, h, k, e) refl
        ]
      ]
    ]
  ]
]

can_advance-won : (x : Lead) → can_advance x ≡ true → str_eq "won" x.stage ≡ false
unfolding can_advance
can_advance-won x h = ground (arith, h, eq_iff x.stage "won", eq_iff "won" x.stage)

can_advance-lost : (x : Lead) → can_advance x ≡ true → str_eq "lost" x.stage ≡ false
unfolding can_advance
can_advance-lost x h = ground (arith, h, eq_iff x.stage "lost", eq_iff "lost" x.stage)

asks_next :
    (server : Server Request Response) (dollars : ℕ → String) (x : Lead) (s : Screen)
    → head (run server (advance_lead dollars x) s []).sent
      ≡ some (update_lead x.id (next_stage x.stage))
unfolding advance_lead run
asks_next server dollars x s = ground arith

-- Advancing a lead asks for the following stage of it, also from a paused lead, which is asked to be won.
pub advance_lead-sent :
    (server : Server Request Response) (dollars : ℕ → String) (x : Lead) (s : Screen)
    → can_advance x ≡ true
    → head (run server (advance_lead dollars x) s []).sent
      ≡ some (update_lead x.id (following x.stage))
advance_lead-sent server dollars x s h =
    asks_next server dollars x s
    ∙ ap (λ stage. some (update_lead x.id stage))
        (next_stage-eq x.stage (can_advance-won x h) (can_advance-lost x h))
