-- ===== src/Mobile/Opportunities/Laws.antt =====
-- What the handlers of the list of matches send and leave behind: apps/mobile/src/screens/
-- OpportunitiesScreen.tsx.
use kall.Common.{
  ℕ, String, ◌≡◌, refl, inl, inr, Bool, Bool-cases, true, false, not, Option, none, some, List, [],
  ◌∷◌, arith, ◌==◌, keep, All, Memᴰ, Option-cases,
}
use mathlib.Core.Option.{some-injective}
use mathlib.Core.Path.{subst}
use kall.Common.Text.{trim}
use kall.Mobile.Task.{Result, ok, failed, Server, run}
use kall.Mobile.OpportunityDetail.{SuppressionReason, or_else}
use kall.Mobile.Opportunities.{
  CareerProfile, JobFeedItem, TrackedOpportunity, DiscoveryRun, Request, fetch_career_profiles,
  fetch_opportunities, fetch_jobs_feed, run_discovery, suppress_result, Response, Screen, truthy,
  last_of, for_job, tracked_opportunity, opportunity_id_of, load, first_id, discovery_text,
  search_now, dismiss,
}

module _ (test : TrackedOpportunity → Bool) where
  last_of-mem :
      (xs : List TrackedOpportunity) (x : TrackedOpportunity)
      → last_of test xs ≡ some x
      → Memᴰ x xs × (test x ≡ true)
  unfolding last_of
  last_of-mem [] x h = cc
  last_of-mem (y ∷ ys) x h = elim (Option-cases (last_of test ys)) [
    | inr (z, e) ↦
        let (m, t) = last_of-mem ys z e in
        let same : z ≡ x = some-injective z x (rw e at h) in
        subst (λ w. Memᴰ w (y ∷ ys) × (test w ≡ true)) same (Memᴰ.tail m, t)
    | inl e ↦ elim (Bool-cases (test y)) [
      | inl t ↦
          let same : y ≡ x = some-injective y x (rw (e, t) at h) in
          subst (λ w. Memᴰ w (y ∷ ys) × (test w ≡ true)) same (Memᴰ.head refl, t)
      | inr f ↦ cc (rw (e, f) at h)
    ]
  ]

-- What a decision about a row without an opportunity of its own is sent about: an opportunity on the
-- screen that is tracked for the row's job under the profile that is selected.
pub set_state-target :
    (s : Screen) (item : JobFeedItem) (id : ℕ)
    → item.opportunity_id ≡ none
    → opportunity_id_of s item ≡ some id
    → (x : TrackedOpportunity) × Memᴰ x s.tracked
      × (x.id ≡ id)
      × (x.job_id ≡ item.job_id)
      × (s.profile_id ≡ some x.professional_profile_id)
unfolding opportunity_id_of tracked_opportunity
set_state-target s item id h k =
    elim (Option-cases (last_of (for_job s.profile_id item.job_id) s.tracked)) [
      | inl e ↦ ground (arith, h, k, e)
      | inr (x, e) ↦
          let (m, t) = last_of-mem (for_job s.profile_id item.job_id) s.tracked x e in
          (x, m, ground (arith, h, k, e), ground (arith, t), ground (arith, t))
    ]

module _ (server : Server Request Response) (s : Screen) where
  abbrev found : List Request
  found = fetch_career_profiles ∷ fetch_opportunities ∷ []

  abbrev fed : Option ℕ → List JobFeedItem
  fed none = []
  fed (some id) = elim (server found (fetch_jobs_feed id)) [ ok feed ↦ feed | failed e ↦ s.feed ]

  -- Loading keeps the profile that is selected, or selects the first one, and shows that profile's feed
  -- if it comes, no feed if there is no profile, and the old one if it fails; it always ends.
  pub load-shows :
      (current : Option ℕ) (profiles : List CareerProfile) (tracked : List TrackedOpportunity)
      → server [] fetch_career_profiles ≡ ok profiles
      → server (fetch_career_profiles ∷ []) fetch_opportunities ≡ ok tracked
      → let e = run server (load current) s [] in
        let active = or_else current (first_id profiles) in
        (e.screen.profile_id ≡ active)
        × (e.screen.tracked ≡ tracked)
        × (e.screen.feed ≡ fed (truthy active))
        × (e.screen.loading ≡ false)
        × (e.screen.refreshing ≡ false)
  unfolding load run
  load-shows current profiles tracked h k = ground (arith, h, k)

  -- Once a search has run, the person is told of what it found, even where the reload of the feed after
  -- it failed and said so.
  pub search_now-message :
      (id : ℕ) (terms : String) (result : DiscoveryRun)
      → (id == 0) ≡ false
      → server [] (run_discovery id (trim terms)) ≡ ok result
      → let e = run server (search_now (some id) terms) s [] in
        (e.screen.message ≡ discovery_text result) × (e.screen.searching ≡ false)
  unfolding search_now run
  search_now-message id terms result h k = ground (arith, h, k)

abbrev Differs : ℕ → JobFeedItem → Type 0
Differs id row = (row.match_id == id) ≡ false

without-All :
    (id : ℕ) (rows : List JobFeedItem)
    → All (Differs id) (keep (λ row. not (row.match_id == id)) rows)
without-All id [] = tt
without-All id (x ∷ xs) = elim (Bool-cases (x.match_id == id)) [
  | inl same ↦ rw same (without-All id xs)
  | inr differs ↦ rw differs (differs, without-All id xs)
]

abbrev pub Dismissed : JobFeedItem → Result Unit → (before after : List JobFeedItem) → Type 0
Dismissed item (ok _) before after = All (Differs item.match_id) after
Dismissed item (failed _) before after = after ≡ before

module _ (server : Server Request Response) (s : Screen) (item : JobFeedItem)
    (reason : SuppressionReason) where
  abbrev after : List JobFeedItem
  after = (run server (dismiss item reason) s []).screen.feed

  Dismissed-feed :
      (answer : Result Unit)
      → server [] (suppress_result item.url item.title reason) ≡ answer
      → Dismissed item answer s.feed after
  unfolding dismiss run
  Dismissed-feed (ok _) e =
      subst (All (Differs item.match_id)) feed (without-All item.match_id s.feed)
    where
      feed : keep (λ row. not (row.match_id == item.match_id)) s.feed ≡ after
      feed = ground (arith, e)
  Dismissed-feed (failed _) e = ground (arith, e)

  -- Dismissing a row takes it off the feed exactly if the server has hidden the posting, also where the
  -- reload of the tracked opportunities after it fails; otherwise the feed stays.
  pub dismiss-feed :
      Dismissed item
        (server [] (suppress_result item.url item.title reason))
        s.feed
        (run server (dismiss item reason) s []).screen.feed
  dismiss-feed = Dismissed-feed (server [] (suppress_result item.url item.title reason)) refl
