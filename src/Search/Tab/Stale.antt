-- ===== src/Search/Tab/Stale.antt =====
-- A search that has been overtaken.
use kall.Common.{
  [], ◌∷◌, any, ◌≤◌, ℕ, ◌+◌, String, ◌≡◌, refl, Bool, true, false, not, Option, none, some, List,
  arith, ◌==◌, if◌then◌else◌,
}
use mathlib.Core.Option.{some-injective}
use kall.Search.Query.{SearchGroup}
use kall.Search.Sites.{SiteDomain}
use kall.Search.Tab.{
  Tab, Submitted, Awaiting, plan, results, edited_results, ended, Answer, planned, aggregated,
  not_aggregated, signed_out, thrown, deliver, search_jobs, prepare, remove_term, clear_results,
  choose_profile,
}

-- The number of the request that is awaited.
abbrev pub request : Awaiting → Option ℕ
request (plan r) = some r.request_id
request (results id domains query) = some id
request (edited_results id domains query) = some id
request ended = none

if_sequence :
    (b : Bool) (x y : Tab × Awaiting) (n : ℕ)
    → x.0.sequence ≡ n
    → y.0.sequence ≡ n
    → (if b then x else y).0.sequence ≡ n
if_sequence true x y n h k = h
if_sequence false x y n h k = k

prepare-sequence :
    (r : Submitted) (base : List SearchGroup) (domains : List SiteDomain) (s : Tab)
    → (prepare r base domains s).0.sequence ≡ s.sequence
unfolding prepare
prepare-sequence r base domains s = search (if_sequence)

-- A search, an edit of the terms, a cleared page and another profile each overtake what was awaited before.
pub actions_overtake :
    (now id term value : String) (s : Tab)
    → ((search_jobs now s).0.sequence ≡ s.sequence + 1)
      × ((remove_term id term s).0.sequence ≡ s.sequence + 1)
      × ((clear_results s).sequence ≡ s.sequence + 1)
      × ((choose_profile value s).sequence ≡ s.sequence + 1)
unfolding search_jobs remove_term clear_results choose_profile
actions_overtake now id term value s =
    (search (if_sequence, prepare-sequence), search (if_sequence), refl, refl)

-- What happens to the page: a person searches, removes a term, clears the results, chooses another profile
-- or types, and a request is answered.
pub data Event : Type 0 where
  searches : (now : String) → Event
  removes : (id term : String) → Event
  clears : Event
  chooses : (value : String) → Event
  types : (input : String) → Event
  answered : Answer → Awaiting → Event

unfoldable pub after : List Event → Tab → Tab
after [] s = s
after (searches now ∷ es) s = after es (search_jobs now s).0
after (removes id term ∷ es) s = after es (remove_term id term s).0
after (clears ∷ es) s = after es (clear_results s)
after (chooses value ∷ es) s = after es (choose_profile value s)
after (types input ∷ es) s = after es (record s { query_input = input })
after (answered a w ∷ es) s = after es (deliver a w s).0

abbrev pub is_action : Event → Bool
is_action (types input) = false
is_action (answered a w) = false
is_action _ = true

abbrev actions : List Event → ℕ
actions [] = 0
actions (e ∷ es) = if is_action e then 1 + actions es else actions es

deliver-sequence : (a : Answer) (w : Awaiting) (s : Tab) → (deliver a w s).0.sequence ≡ s.sequence
unfolding deliver
deliver-sequence (planned intent ds) (plan r) s = search (if_sequence, prepare-sequence)
deliver-sequence (aggregated v) (plan r) s = ground arith
deliver-sequence not_aggregated (plan r) s = ground arith
deliver-sequence signed_out (plan r) s = search (if_sequence, prepare-sequence)
deliver-sequence (thrown detail) (plan r) s = ground arith
deliver-sequence a (results id domains query) s = ground arith
deliver-sequence a (edited_results id domains query) s = ground arith
deliver-sequence a ended s = refl

after-sequence : (es : List Event) (s : Tab) → (after es s).sequence ≡ s.sequence + actions es
unfolding after
after-sequence [] s = omega arith
after-sequence (searches now ∷ es) s =
    omega (arith, after-sequence es (search_jobs now s).0, (actions_overtake now "" "" "" s).0)
after-sequence (removes id term ∷ es) s =
    omega (arith, after-sequence es (remove_term id term s).0, (actions_overtake "" id term "" s).1)
after-sequence (clears ∷ es) s =
    omega (arith, after-sequence es (clear_results s), (actions_overtake "" "" "" "" s).2)
after-sequence (chooses value ∷ es) s =
    omega (arith, after-sequence es (choose_profile value s), (actions_overtake "" "" "" value s).3)
after-sequence (types input ∷ es) s = after-sequence es (record s { query_input = input })
after-sequence (answered a w ∷ es) s =
    omega (arith, after-sequence es (deliver a w s).0, deliver-sequence a w s)

some_action : (es : List Event) → any is_action es ≡ true → 1 ≤ actions es
some_action [] h = cc
some_action (e ∷ es) h = ground (arith, some_action es, h)

abbrev pub is_signed_out : Answer → Bool
is_signed_out signed_out = true
is_signed_out _ = false

ignored :
    (a : Answer) (w : Awaiting) (s : Tab) (id : ℕ)
    → request w ≡ some id
    → (id == s.sequence) ≡ false
    → deliver a w s ≡ (if is_signed_out a then record s { signed_out = true } else s, ended)
unfolding deliver
ignored a (plan r) s id e h = ground (arith, some-injective r.request_id id e, h)
ignored a (results i domains query) s id e h = ground (arith, some-injective i id e, h)
ignored a (edited_results i domains query) s id e h = ground (arith, some-injective i id e, h)
ignored a ended s id e h = cc

-- Take the request that was submitted last, and anything that happens to the page after that, among it a
-- new search, a removed term, cleared results or the choice of a profile. An answer to the request then
-- changes nothing, but for the leave to the sign-in page if the session has ended.
pub overtaken_answer :
    (a : Answer) (w : Awaiting) (es : List Event) (s : Tab)
    → request w ≡ some s.sequence
    → any is_action es ≡ true
    → let now = after es s in
      deliver a w now ≡ (if is_signed_out a then record now { signed_out = true } else now, ended)
overtaken_answer a w es s e h =
    ignored a w (after es s) s.sequence e (ground (arith, after-sequence es s, some_action es h))

-- Whether something is awaited, or no progress is shown.
abbrev pub is_settled : Tab × Awaiting → Bool
is_settled (s, ended) = not s.loading
is_settled (s, w) = true

if_settled :
    (b : Bool) (x y : Tab × Awaiting)
    → is_settled x ≡ true
    → is_settled y ≡ true
    → is_settled (if b then x else y) ≡ true
if_settled true x y h k = h
if_settled false x y h k = k

prepare-settled :
    (r : Submitted) (base : List SearchGroup) (domains : List SiteDomain) (s : Tab)
    → is_settled (prepare r base domains s) ≡ true
unfolding prepare
prepare-settled r base domains s = search (if_settled)

-- The progress is off the page whenever a search has nothing left to await: when it is submitted, and when
-- its plan or its results are delivered while it is current, whatever the answer.
pub search_settles :
    (now : String) (a : Answer) (r : Submitted) (domains : List SiteDomain) (query : String)
    (s : Tab)
    → (is_settled (search_jobs now s) ≡ true)
      × (is_settled (deliver a (plan r) (record s { sequence = r.request_id })) ≡ true)
      × (is_settled (deliver a (results s.sequence domains query) s) ≡ true)
unfolding search_jobs deliver
search_settles now a r domains query s =
    (search (if_settled, prepare-settled), settled_plan a, settled_results a)
  where
    same : (n : ℕ) → (n == n) ≡ true
    same n = ground arith

    settled_plan :
        (b : Answer) → is_settled (deliver b (plan r) (record s { sequence = r.request_id })) ≡ true
    settled_plan (planned intent ds) = rw (same r.request_id) (search (prepare-settled))
    settled_plan (aggregated v) = rw (same r.request_id) refl
    settled_plan not_aggregated = rw (same r.request_id) refl
    settled_plan signed_out = rw (same r.request_id) (search (prepare-settled))
    settled_plan (thrown detail) = rw (same r.request_id) refl

    settled_results :
        (b : Answer) → is_settled (deliver b (results s.sequence domains query) s) ≡ true
    settled_results (planned intent ds) = rw (same s.sequence) refl
    settled_results (aggregated v) = rw (same s.sequence) refl
    settled_results not_aggregated = rw (same s.sequence) refl
    settled_results signed_out = rw (same s.sequence) refl
    settled_results (thrown detail) = rw (same s.sequence) refl
