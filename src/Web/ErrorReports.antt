-- ===== src/Web/ErrorReports.antt =====
-- What an error report keeps before it leaves the web application: `scrubEvent` of
-- apps/web/lib/sentry-shared.ts, over an event as the JSON object that it is.
pub mod Laws
pub mod Tests
use kall.Common.{String, Option, none, some, str_eq, if◌then◌else◌}
use kall.Common.Json.{Json, obj, Fields, end, field, get_field, member, is_truthy}

-- `delete event[name]`
unfoldable pub without : String → Fields → Fields
without name end = end
without name (field other v rest) =
    let kept = field other v (without name rest) in
    let left = without name rest in if str_eq other name then left else kept

-- `event[name] = value` of a field that is there.
unfoldable pub replace_field : String → Json → Fields → Fields
replace_field name value end = end
replace_field name value (field other v rest) =
    field other (if str_eq other name then value else v) (replace_field name value rest)

abbrev pub only_method : Option Json → Fields
only_method none = end
only_method (some method) = if is_truthy (some method) then field "method" method end else end

abbrev pub replace_request : Option Json → Fields → Fields
replace_request none event = event
replace_request (some request) event =
    if is_truthy (some request)
    then replace_field "request" (obj (only_method (member "method" request))) event
    else event

unfoldable pub scrub_request : Fields → Fields
unfolding replace_field
scrub_request event = replace_request (get_field "request" event) event

-- `delete nextjs.request_path`
abbrev pub scrub_nextjs : Option Json → Fields → Fields
scrub_nextjs (some (obj nextjs)) contexts =
    replace_field "nextjs" (obj (without "request_path" nextjs)) contexts
scrub_nextjs _ contexts = contexts

abbrev pub replace_contexts : Option Json → Fields → Fields
replace_contexts (some (obj contexts)) event =
    replace_field "contexts" (obj (scrub_nextjs (get_field "nextjs" contexts) contexts)) event
replace_contexts _ event = event

unfoldable pub scrub_contexts : Fields → Fields
unfolding replace_field without
scrub_contexts event = replace_contexts (get_field "contexts" event) event

unfoldable pub scrub_event : Fields → Fields
unfolding scrub_request scrub_contexts
scrub_event event = scrub_contexts (scrub_request (without "breadcrumbs" (without "user" event)))
