-- ===== src/Web/ErrorReports/Tests.antt =====
-- An event with a person's data, and what is left of it.
use kall.Common.{◌≡◌, refl, none}
use kall.Common.Json.{str, obj, Fields, end, field, get_field}
use kall.Web.ErrorReports.{scrub_event}
use kall.Web.ErrorReports.Laws.{request_field, nextjs_field, scrub_event-leaves_out}

abbrev event : Fields
event = field "user" (obj (field "email" (str "a@ex.org") end)) (
    field "level" (str "error") (
      field "request" (obj (field "url" (str "/p/ann") (field "method" (str "GET") end))) (
        field "contexts"
          (obj (
            field "nextjs"
              (obj
                (field "request_path" (str "/p/ann") (field "router_path" (str "/p/[slug]") end)))
              end))
          end)))

scrub_event_test :
    scrub_event event
    ≡ field "level" (str "error") (
        field "request" (obj (field "method" (str "GET") end)) (
          field "contexts"
            (obj (field "nextjs" (obj (field "router_path" (str "/p/[slug]") end)) end))
            end))
unfolding scrub_event
scrub_event_test = refl

scrub_event-leaves_out_example :
    (get_field "user" (scrub_event event) ≡ none)
    × (get_field "breadcrumbs" (scrub_event event) ≡ none)
    × (request_field "url" (scrub_event event) ≡ none)
    × (nextjs_field "request_path" (scrub_event event) ≡ none)
scrub_event-leaves_out_example = scrub_event-leaves_out event "url" refl
