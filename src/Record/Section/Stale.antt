-- ===== src/Record/Section/Stale.antt =====
-- Answers for a section that the user has left.
use kall.Common.{
  ℕ, String, ◌≡◌, refl, ◌≢◌, Bool, true, false, some, arith, eq_iff, eq_refl, ◌==◌, if◌then◌else◌,
}
use kall.Common.Json.{Json}
use kall.Record.Section.{Tab, choose, ended, signed_out, look_at_suggestions, arrive, read_body}

-- The answer of a load for a section that is not on screen is dropped: the load ends, or the session has.
pub arrive-elsewhere :
    (selected : String) (status : ℕ) (suggestions_ok : Bool) (s : Tab)
    → selected ≢ s.resource
    → arrive selected status suggestions_ok s ≡ (if status == 401 then signed_out else ended)
unfolding arrive look_at_suggestions
arrive-elsewhere selected status suggestions_ok s h = ground (arith, eq_iff selected s.resource)

-- A load for the section on screen whose bodies are read before anything else happens shows them.
pub load_in_place :
    (rows suggestions : Json) (s : Tab)
    → (let (s1, l1) = read_body rows (arrive s.resource 200 true s) s in
        read_body suggestions l1 s1)
      ≡ (record s { rows = some rows; suggestions = some suggestions }, ended)
unfolding arrive look_at_suggestions read_body
load_in_place rows suggestions s = rw (eq_refl s.resource) (rw (eq_refl s.resource) refl)

-- If the section is left after the answer has arrived and before its body is read, the rows of the section
-- that was left are put under the one now on screen: nothing is looked at again after the await.
pub late_body :
    (new : String) (v : Json) (s : Tab)
    → (read_body v (arrive s.resource 200 false s) (choose new s)).0
      ≡ record (choose new s) { rows = some v }
unfolding arrive look_at_suggestions read_body choose
late_body new v s = rw (eq_refl s.resource) refl
