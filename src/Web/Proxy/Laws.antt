-- ===== src/Web/Proxy/Laws.antt =====
-- What the proxy sends to the API and back.
use kall.Common.{
  String, ◌≡◌, refl, ap, ◌∙◌, ◌≢◌, false, Option, none, some, List, [], arith, str_eq, eq_iff,
  eq_refl, if◌then◌else◌,
}
use text.Mathlib.TextLemmas.{cons-append}
use kall.Common.Text.{is_nonempty}
use kall.Record.Values.{lookup, lookup-assign}
use kall.Web.Proxy.{Answer, set_header, bearer, forward_headers, respond}

-- The value that a header is set to, if any.
abbrev set_value : Option String → Option String
set_value none = none
set_value (some v) = if is_nonempty v then some v else none

lookup-set_header :
    (name other : String) (v : Option String) (headers : List (String × String))
    → str_eq name other ≡ false
    → lookup other (set_header name v headers) ≡ lookup other headers
lookup-set_header name other none headers h = refl
lookup-set_header name other (some v) headers h = ground (arith, lookup-assign name other v headers)

lookup-set_header_own :
    (name : String) (v : Option String) (headers : List (String × String))
    → lookup name headers ≡ none
    → lookup name (set_header name v headers) ≡ set_value v
lookup-set_header_own name none headers h = h
lookup-set_header_own name (some v) headers h =
    ground (arith, lookup-assign name name v headers, eq_refl name)

no_headers : (name : String) → lookup {V = String} name [] ≡ none
unfolding lookup
no_headers name = refl

set_value-bearer : (token : Option String) → set_value (bearer token) ≡ bearer token
set_value-bearer none = refl
set_value-bearer (some t) = ground (arith, ap is_nonempty (cons-append "B" "earer " t))

different : (s t : String) → s ≢ t → str_eq t s ≡ false
different s t h = ground (arith, eq_iff t s)

-- The token that the API sees is that of the session, or none: what the caller sends as its own is never
-- passed on.
pub forward_headers-authorization :
    (token : Option String) (headers : List (String × String))
    → lookup "authorization" (forward_headers token headers) ≡ bearer token
unfolding forward_headers
forward_headers-authorization token headers =
    lookup-set_header_own "authorization" (bearer token)
      (set_header "content-type" (lookup "content-type" headers) [])
      (lookup-set_header "content-type" "authorization" (lookup "content-type" headers) [] refl
        ∙ no_headers "authorization")
    ∙ set_value-bearer token

-- No other header of the caller is passed on but its content type.
pub forward_headers-others :
    (name : String) (token : Option String) (headers : List (String × String))
    → name ≢ "authorization"
    → name ≢ "content-type"
    → lookup name (forward_headers token headers) ≡ none
unfolding forward_headers
forward_headers-others name token headers h k =
    lookup-set_header "authorization" name (bearer token)
      (set_header "content-type" (lookup "content-type" headers) [])
      (different name "authorization" h)
    ∙ lookup-set_header "content-type" name (lookup "content-type" headers) []
        (different name "content-type" k)
    ∙ no_headers name

-- The caller gets the API's status and body, and of its headers the content type and the location alone.
pub respond-headers :
    (name : String) (response : Answer)
    → name ≢ "location"
    → name ≢ "content-type"
    → ((respond response).status ≡ response.status)
      × ((respond response).body ≡ response.body)
      × (lookup name (respond response).headers ≡ none)
unfolding respond
respond-headers name response h k = (
  refl,
  refl,
  lookup-set_header "location" name (lookup "location" response.headers)
        (set_header "content-type" (lookup "content-type" response.headers) [])
        (different name "location" h)
      ∙ lookup-set_header "content-type" name (lookup "content-type" response.headers) []
          (different name "content-type" k)
      ∙ no_headers name,
)
