-- ===== src/Web/ErrorReports/Laws.antt =====
-- What is left of an event, and what is not: apps/web/lib/sentry-shared.ts.
use kall.Common.{
  String, ◌≡◌, refl, ◌∙◌, ap, inl, inr, Bool-cases, false, Option, none, some, arith, str_eq,
  eq_iff,
}
use kall.Common.Json.{
  Json, null, bool, num, str, arr, obj, Fields, end, field, get_field, member, is_truthy,
}
use kall.Web.ErrorReports.{
  without, replace_field, scrub_event, replace_request, replace_contexts, only_method, scrub_nextjs,
}

get_field-without_same : (name : String) (fs : Fields) → get_field name (without name fs) ≡ none
unfolding without
get_field-without_same name end = refl
get_field-without_same name (field other v rest) = ground (arith, get_field-without_same name rest)

get_field-without :
    (name other : String) (fs : Fields)
    → str_eq name other ≡ false
    → get_field other (without name fs) ≡ get_field other fs
unfolding without
get_field-without name other end h = refl
get_field-without name other (field n v rest) h =
    ground (
      arith,
      get_field-without name other rest,
      eq_iff n name,
      eq_iff n other,
      eq_iff name other,
      h,
    )

abbrev replaced : Json → Option Json → Option Json
replaced value none = none
replaced value (some v) = some value

get_field-replace_same :
    (name : String) (value : Json) (fs : Fields)
    → get_field name (replace_field name value fs) ≡ replaced value (get_field name fs)
unfolding replace_field
get_field-replace_same name value end = refl
get_field-replace_same name value (field n v rest) =
    ground (arith, get_field-replace_same name value rest)

get_field-replace :
    (name other : String) (value : Json) (fs : Fields)
    → str_eq name other ≡ false
    → get_field other (replace_field name value fs) ≡ get_field other fs
unfolding replace_field
get_field-replace name other value end h = refl
get_field-replace name other value (field n v rest) h = ground (
  arith,
  get_field-replace name other value rest,
  eq_iff n name,
  eq_iff n other,
  eq_iff name other,
  h,
)

-- A field of the request that an event tells of, and of what it tells of the framework's context.
abbrev under : Option Json → String → Option Json
under none name = none
under (some v) name = member name v

abbrev pub request_field : String → Fields → Option Json
request_field name event = under (get_field "request" event) name

abbrev pub nextjs_field : String → Fields → Option Json
nextjs_field name event = under (under (get_field "contexts" event) "nextjs") name

only_method-none :
    (name : String) (method : Option Json)
    → str_eq "method" name ≡ false
    → get_field name (only_method method) ≡ none
only_method-none name none h = refl
only_method-none name (some v) h = ground (arith, h)

scrubbed_request :
    (request : Option Json) (event : Fields) (name : String)
    → get_field "request" event ≡ request
    → str_eq "method" name ≡ false
    → request_field name (replace_request request event) ≡ none
scrubbed_request none event name e h = ground (arith, e)
scrubbed_request (some r) event name e h = elim (Bool-cases (is_truthy (some r))) [
  | inl there ↦
      let value = obj (only_method (member "method" r)) in
      rw there (
        rw (get_field-replace_same "request" value event)
          (rw e (only_method-none name (member "method" r) h)))
  | inr falsy ↦ rw falsy (rw e (member_of_falsy r falsy))
]
  where
    member_of_falsy : (v : Json) → is_truthy (some v) ≡ false → member name v ≡ none
    member_of_falsy null k = refl
    member_of_falsy (bool b) k = refl
    member_of_falsy (num n) k = refl
    member_of_falsy (str s) k = refl
    member_of_falsy (arr vs) k = cc
    member_of_falsy (obj fs) k = cc

scrubbed_nextjs :
    (nextjs : Option Json) (contexts : Fields)
    → get_field "nextjs" contexts ≡ nextjs
    → under (get_field "nextjs" (scrub_nextjs nextjs contexts)) "request_path" ≡ none
scrubbed_nextjs none contexts e = rw e refl
scrubbed_nextjs (some (obj fs)) contexts e =
    rw (get_field-replace_same "nextjs" (obj (without "request_path" fs)) contexts)
      (rw e (get_field-without_same "request_path" fs))
scrubbed_nextjs (some null) contexts e = rw e refl
scrubbed_nextjs (some (bool b)) contexts e = rw e refl
scrubbed_nextjs (some (num n)) contexts e = rw e refl
scrubbed_nextjs (some (str s)) contexts e = rw e refl
scrubbed_nextjs (some (arr vs)) contexts e = rw e refl

scrubbed_contexts :
    (contexts : Option Json) (event : Fields)
    → get_field "contexts" event ≡ contexts
    → nextjs_field "request_path" (replace_contexts contexts event) ≡ none
scrubbed_contexts none event e = rw e refl
scrubbed_contexts (some (obj fs)) event e =
    rw (get_field-replace_same "contexts" (obj (scrub_nextjs (get_field "nextjs" fs) fs)) event)
      (rw e (scrubbed_nextjs (get_field "nextjs" fs) fs refl))
scrubbed_contexts (some null) event e = rw e refl
scrubbed_contexts (some (bool b)) event e = rw e refl
scrubbed_contexts (some (num n)) event e = rw e refl
scrubbed_contexts (some (str s)) event e = rw e refl
scrubbed_contexts (some (arr vs)) event e = rw e refl

contexts-keeps :
    (contexts : Option Json) (event : Fields) (name : String)
    → str_eq "contexts" name ≡ false
    → get_field name (replace_contexts contexts event) ≡ get_field name event
contexts-keeps (some (obj fs)) event name h =
    get_field-replace "contexts" name (obj (scrub_nextjs (get_field "nextjs" fs) fs)) event h
contexts-keeps none event name h = refl
contexts-keeps (some null) event name h = refl
contexts-keeps (some (bool b)) event name h = refl
contexts-keeps (some (num n)) event name h = refl
contexts-keeps (some (str s)) event name h = refl
contexts-keeps (some (arr vs)) event name h = refl

request-keeps :
    (request : Option Json) (event : Fields) (name : String)
    → str_eq "request" name ≡ false
    → get_field name (replace_request request event) ≡ get_field name event
request-keeps none event name h = refl
request-keeps (some r) event name h = elim (Bool-cases (is_truthy (some r))) [
  | inl there ↦
      rw there (get_field-replace "request" name (obj (only_method (member "method" r))) event h)
  | inr falsy ↦ rw falsy refl
]

-- What leaves of an event names no user, has no breadcrumbs, nothing of the request but its method, and
-- no concrete path of it in the framework's context.
pub scrub_event-leaves_out :
    (event : Fields) (name : String)
    → str_eq "method" name ≡ false
    → (get_field "user" (scrub_event event) ≡ none)
      × (get_field "breadcrumbs" (scrub_event event) ≡ none)
      × (request_field name (scrub_event event) ≡ none)
      × (nextjs_field "request_path" (scrub_event event) ≡ none)
unfolding scrub_event
scrub_event-leaves_out event name h =
    let bare = without "breadcrumbs" (without "user" event) in
    let asked = replace_request (get_field "request" bare) bare in
    let kept : (n : String)
        → str_eq "contexts" n ≡ false
        → get_field n (scrub_event event) ≡ get_field n asked =
      λ n k. contexts-keeps (get_field "contexts" asked) asked n k in
    (
      kept "user" refl
          ∙ request-keeps (get_field "request" bare) bare "user" refl
          ∙ get_field-without "breadcrumbs" "user" (without "user" event) refl
          ∙ get_field-without_same "user" event,
      kept "breadcrumbs" refl
          ∙ request-keeps (get_field "request" bare) bare "breadcrumbs" refl
          ∙ get_field-without_same "breadcrumbs" (without "user" event),
      ap (λ r. under r name) (kept "request" refl)
          ∙ scrubbed_request (get_field "request" bare) bare name refl h,
      scrubbed_contexts (get_field "contexts" asked) asked refl,
    )

-- Every other part of an event leaves as it is.
pub scrub_event-keeps :
    (event : Fields) (name : String)
    → str_eq "user" name ≡ false
    → str_eq "breadcrumbs" name ≡ false
    → str_eq "request" name ≡ false
    → str_eq "contexts" name ≡ false
    → get_field name (scrub_event event) ≡ get_field name event
unfolding scrub_event
scrub_event-keeps event name u b r c =
    let bare = without "breadcrumbs" (without "user" event) in
    let asked = replace_request (get_field "request" bare) bare in
    contexts-keeps (get_field "contexts" asked) asked name c
    ∙ request-keeps (get_field "request" bare) bare name r
    ∙ get_field-without "breadcrumbs" name (without "user" event) b
    ∙ get_field-without "user" name event u
