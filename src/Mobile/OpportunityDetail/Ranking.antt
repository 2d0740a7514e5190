-- ===== src/Mobile/OpportunityDetail/Ranking.antt =====
-- The resumes of a posting, best fit first: `scoresByResume`, `rankedResumes` and `coverageRows` of
-- apps/mobile/src/screens/OpportunityDetailScreen.tsx.
use kall.Common.{
  ℕ, ◌+◌, String, Bool, ◌≡◌, true, false, Option, none, some, List, [], ◌∷◌, arith, ltb, leb, ◌==◌,
  if◌then◌else◌, keep, head, Memᴰ,
}
use kall.Common.Sorting.{sort, head-sort}
use kall.Mobile.OpportunityDetail.{Resume, ResumeScore, Coverage, JobIntelligence, Screen, or_else}

-- `new Map(scores.map((score) => [score.resume_id, score]))`: a later score replaces an earlier one.
unfoldable pub score_of : ℕ → List ResumeScore → Option ResumeScore
score_of id [] = none
score_of id (x ∷ xs) = or_else (score_of id xs) (if x.resume_id == id then some x else none)

abbrev pub scores_of : Option JobIntelligence → List ResumeScore
scores_of none = []
scores_of (some result) = result.scores

-- `total_score ?? -1`, counted from -1.
abbrev points : Option ResumeScore → ℕ
points none = 0
points (some x) = x.total_score + 1

unfoldable pub fit : List ResumeScore → Resume → ℕ
unfolding score_of
fit scores r = points (score_of r.id scores)

-- The comparison of `rankedResumes` is not positive.
abbrev pub fits_better : List ResumeScore → Resume → Resume → Bool
fits_better scores a b = leb (fit scores b) (fit scores a)

unfoldable pub ranked_resumes : Screen → List Resume
unfolding fit
ranked_resumes s = sort (fits_better (scores_of s.intelligence)) s.resumes

unfoldable pub coverage_rows : Screen → List (String × Coverage)
coverage_rows s = elim s.intelligence [
  | none ↦ []
  | some result ↦ keep (λ row. ltb 0 row.1.total) result.coverage
]

better_total :
    (scores : List ResumeScore) (a b : Resume)
    → fits_better scores a b ≡ false
    → fits_better scores b a ≡ true
better_total scores a b h = ground arith

better_trans :
    (scores : List ResumeScore) (a b c : Resume)
    → fits_better scores a b ≡ true
    → fits_better scores b c ≡ true
    → fits_better scores a c ≡ true
better_trans scores a b c h k = ground arith

-- The resume that is marked as the best fit is at least as good a fit as every other one on the screen.
pub best_fit :
    (s : Screen) (best other : Resume)
    → head (ranked_resumes s) ≡ some best
    → Memᴰ other s.resumes
    → fits_better (scores_of s.intelligence) best other ≡ true
unfolding ranked_resumes
best_fit s best other h m =
    let scores = scores_of s.intelligence in
    head-sort (fits_better scores) (better_total scores) (better_trans scores) best other s.resumes
      h m
