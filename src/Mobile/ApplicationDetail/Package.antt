-- ===== src/Mobile/ApplicationDetail/Package.antt =====
-- Whether there is something for "Documents reviewed" to attest to: `documentsReady` of
-- apps/mobile/src/components/PackageReview.tsx, which is what the web panel reports once the package is
-- loaded.
use kall.Common.{
  String, ◌≡◌, refl, Bool, true, false, not, ◌&&◌, ◌||◌, Option, none, some, arith, str_eq,
  if◌then◌else◌,
}
use kall.Web.Documents as web

-- The parts of the package that the test reads.
pub record Package : Type 0 where
  pub payload : Option web.PreparedPayload
  pub tailoring_status : Option String
  pub letter_status : Option String
  pub has_document : Bool
  pub loaded : Bool

abbrev wants : (web.PreparedPayload → Bool) → Option web.PreparedPayload → Bool
wants field none = false
wants field (some p) = field p

abbrev has_status : String → Option String → Bool
has_status status none = false
has_status status (some t) = str_eq t status

abbrev customized : Package → Bool
customized p = wants (λ x. x.customize_resume) p.payload

abbrev wants_letter : Package → Bool
wants_letter p = wants (λ x. x.generate_cover_letter) p.payload

unfoldable pub nothing_requested : Package → Bool
nothing_requested p = not (customized p) && not (wants_letter p)

unfoldable pub package_tailored : Package → Bool
unfolding nothing_requested
package_tailored p =
    if nothing_requested p
    then true
    else if not (wants (λ x. web.truthy_id x.tailoring_proposal_id) p.payload)
    then false
    else has_status "finalized" p.tailoring_status

unfoldable pub letter_done : Package → Bool
letter_done p = if not (wants_letter p) then true else has_status "finalized" p.letter_status

unfoldable pub documents_ready : Package → Bool
unfolding nothing_requested package_tailored letter_done
documents_ready p =
    p.loaded && (nothing_requested p || (package_tailored p && (letter_done p && p.has_document)))

abbrev text_of : Option String → String
text_of none = ""
text_of (some t) = t

-- The web panel shows the same package.
abbrev pub Shows : web.Panel → Package → Type 0
Shows panel p =
    (panel.payload ≡ p.payload)
    × (panel.tailoring_status ≡ text_of p.tailoring_status)
    × (panel.cover_letter_status ≡ text_of p.letter_status)
    × (web.is_some panel.document ≡ p.has_document)

status-eq : (o : Option String) → str_eq (text_of o) "finalized" ≡ has_status "finalized" o
status-eq none = refl
status-eq (some t) = refl

-- On a loaded package the phone lets the documents be confirmed exactly if the web panel, which shows the
-- same package, reports that they are ready.
pub documents_ready-eq_ready :
    (panel : web.Panel) (p : Package)
    → Shows panel p
    → p.loaded ≡ true
    → documents_ready p ≡ web.ready panel
unfolding documents_ready web.ready
documents_ready-eq_ready panel p (a, b, c, d) loaded =
    ground (arith, a, b, c, d, loaded, status-eq p.tailoring_status, status-eq p.letter_status)
