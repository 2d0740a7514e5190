-- ===== src/Mobile/Opportunities/Races.antt =====
-- Handlers of the list of matches that run between each other's awaits: apps/mobile/src/screens/
-- OpportunitiesScreen.tsx.
use kall.Common.{ℕ, ◌≡◌, false, some, List, [], ◌∷◌, arith}
use kall.Mobile.Task.{Result, ok, World, Event, starts, answers, play}
use kall.Mobile.Opportunities.{
  JobFeedItem, Request, fetch_jobs_feed, Response, Screen, select_profile,
}

module _ (answer : (r : Request) → Result (Response r)) where
  -- One profile is selected and then another; the second feed comes first.
  abbrev pub selected_twice : (first second : ℕ) → List (Event Screen Request Response)
  selected_twice first second =
      starts (select_profile first)
      ∷ starts (select_profile second)
      ∷ answers 0 answer
      ∷ answers 1 answer
      ∷ []

  -- If a second profile is selected while the first one's feed is on its way, and the first feed comes
  -- last, then the screen ends with the second profile selected and the first profile's feed shown.
  pub late_feed_shown :
      (first second : ℕ) (feed feed' : List JobFeedItem) (w : World Screen Request Response)
      → answer (fetch_jobs_feed first) ≡ ok feed
      → answer (fetch_jobs_feed second) ≡ ok feed'
      → let after = (play (selected_twice first second) w).screen in
        (after.profile_id ≡ some second) × (after.feed ≡ feed) × (after.loading ≡ false)
  unfolding play select_profile
  late_feed_shown first second feed feed' w h k = ground (arith, h, k)
