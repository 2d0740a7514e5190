-- ===== src/Lib.antt =====
-- Kall: the client logic of a job search, career profile and application tracking platform. The repository has a
-- Python backend (backend), a web application (apps/web, Next.js), a phone application (apps/mobile, React Native)
-- and a browser extension (apps/extension). This library models the TypeScript code that keeps state, decides or
-- transforms data on the web and on the phone, and proves what makes it correct. Paths are from the repository's
-- root.
--
-- The parts and their files:
--
-- - Common: texts, lists, JSON, decimals and answers of `fetch`, which the other modules share.
-- - Search/Suppression over Search/Url: apps/web/app/lib/searchResultState.ts, the results that a user has hidden.
--   `Store` is the module's variables; `load` and `settle` are loadSuppressedResults before and after its await;
--   `hide_search_result`, `restore_search_result` and `restore_hidden_search_results` are the calls of their names,
--   `is_search_result_hidden` is what the lists of results ask. Index says that the lookup index follows the
--   list, Entries what a call does to the entries, Hydration how often the list is fetched.
-- - Search/Query over Search/Tokens: apps/web/app/lib/searchQuery.ts, the search text as groups of terms. Tokens has
--   the regular expressions as scanners, which `parse_query` runs; Query/Groups and below are about parsing and
--   building.
-- - Search/Tab over Search/Sites: apps/web/app/search/SearchTab.tsx, the search page. A search or an edit of the terms is an `Awaiting`
--   that `deliver` takes to its next await; a later action overtakes it by the sequence number. It parses and
--   builds with Search/Query.
-- - Plans: apps/web/app/lib/plans.ts and apps/web/app/components/PlanLimitDialog.tsx, the plans, the refill dates over
--   the UTC calendar (Plans/Calendar) and the paywall dialog.
-- - Web/Gateway: apps/web/app/lib/api.ts over the patched fetch of apps/web/app/components/MaintenanceBanner.tsx.
-- - Web/Proxy: apps/web/app/api/kall/[...path]/route.ts, what the web server passes on to the API and back.
-- - Web/MobileRelease: apps/web/app/api/mobile-release/route.ts.
-- - Web/Salary: apps/web/app/components/SalaryRangeInput.tsx.
-- - Web/Board: apps/web/app/applications/ApplicationsClient.tsx, which hides and restores postings in the store of
--   Search/Suppression when applications end or are removed.
-- - Web/Documents: apps/web/app/applications/[id]/DocumentsReviewPanel.tsx. `Stage` is where a call of load waits, `resume`
--   one step of it, `World` the panel with its running calls; Actions has the handlers, Questions the order in
--   which suggestions are asked about.
-- - Record: apps/web/app/profiles/recordSchema.ts and apps/mobile/src/lib/recordSchema.ts (WebSchemas, MobileSchemas,
--   Split), apps/web/app/profiles/RecordTab.tsx (WebForm, Section) and apps/mobile/src/screens/RecordResourceScreen.tsx
--   (MobileForm, whose Screen has the handlers and Saved what they send).
-- - Mobile/Client: apps/mobile/src/api/client.ts, and Mobile/TokenCache: apps/mobile/src/auth/sessionTokenCache.ts.
-- - Mobile/Task: the asynchronous handlers of the phone's screens. A `Task` is the tree of a handler's state changes, reads,
--   requests and their failures; `run` takes it to its end against a server whose answers may depend on all earlier
--   requests, and `play` interleaves handlers, from await to await, by a list of events. Task/Keeps, Task/Runs and
--   Task/Alike are what the screens' proofs share.
-- - Mobile/OpportunityDetail: apps/mobile/src/screens/OpportunityDetailScreen.tsx over apps/mobile/src/api/intelligence.ts and
--   apps/mobile/src/api/applications.ts, one posting: `opened` is its first effect, `prepare`, `track_applied`, `choose_resume`
--   and the others are its handlers; Ranking has the order of the resumes.
-- - Mobile/Opportunities: apps/mobile/src/screens/OpportunitiesScreen.tsx over apps/mobile/src/api/opportunities.ts, the matches.
-- - Mobile/Tailoring: apps/mobile/src/screens/TailoringScreen.tsx over apps/mobile/src/api/tailoring.ts. Handlers and Documents have the
--   handlers and effects, Views what is computed from the state, Actions what a person can do; Mobile/Files has the
--   name of a shared file, of apps/mobile/src/lib/files.ts. Views/Order compares it with Web/Documents.
-- - Mobile/ReleaseGate: apps/mobile/src/components/ReleaseResetGate.tsx, whose reset calls Mobile/TokenCache.
-- - Mobile/ApplicationDetail: apps/mobile/src/screens/ApplicationDetailScreen.tsx, and in Package what
--   apps/mobile/src/components/PackageReview.tsx tells it, against Web/Documents.
-- - Mobile/Submission: apps/mobile/src/components/SubmissionSection.tsx over apps/mobile/src/api/submissions.ts; `Section` also holds the
--   stage of the screen around it.
-- - Mobile/Consulting: apps/mobile/src/screens/ConsultingScreen.tsx over apps/mobile/src/api/consulting.ts.
-- - Web/Chips: apps/web/app/components/ChipsInput.tsx and ChipsToggle.tsx, with `csv` of apps/web/app/onboarding/page.tsx, which
--   reads their hidden inputs. Texts is about texts without a comma, Hidden about what a form reads.
-- - Web/Onboarding: apps/web/app/onboarding/page.tsx over apps/web/app/lib/profileForm.ts. Its handlers are tasks, as those of the
--   phone; `Reaches` of Regions is the relation of the pages that the two selects can make.
-- - Mobile/CareerProfiles: apps/mobile/src/screens/CareerProfilesScreen.tsx over apps/mobile/src/api/workspace.ts, the guided profiles.
--   Answers has what is filled in, sent and still open, Choices what the fields of the questions offer and take, Handlers
--   the suggestions and Review the walk through the questions up to the save.
-- - Mobile/Growth: apps/mobile/src/screens/GrowthScreen.tsx over apps/mobile/src/api/growth.ts, the screen with the card of one goal;
--   Markdown is the text of a plan that is shared.
-- - Web/ErrorReports: apps/web/lib/sentry-shared.ts, on an event that is a JSON object.
-- - Search/Suppression/Refinement: the hidden results as a map from normal forms to entries, which forgets the list's order and
--   the index; Queries says what a question means on it.
--
-- How code becomes definitions: the state of a module or a component is a record, an event handler is a function
-- on it, and code between two awaits is one step, so that what happens in between is a sequence of steps. A throw
-- is a value. State setters of a handler act at once, and what a handler has captured of its render is its argument. What the code calls and does not define is an argument: the URL type of the platform (`UrlApi`, with
-- three documented laws), `toLowerCase`, `Number`, `JSON.stringify`, what an unreadable body throws, the session provider, the secure store, the answers of the server.
--
-- Bounds and fuel: numbers are natural numbers; amounts are whole dollars, and numbers of a version and identifiers
-- stay below 2^53, where the language's numbers are exact. `decimal` gives a number one round more than it is,
-- which is more than it has digits. `complete` gives a call of load eight awaits, which are its fetches and bodies.
-- The scanners of Search/Tokens are structural: what a match has passed over is counted down.
--
-- Not modelled: markup, styles and texts of the pages; timers, object URLs and file downloads; pages that only
-- fetch and show; the discovery tab, the career page editor and the pages of one application on the web; the phone's navigation and its screens beyond those above; the endpoint modules of
-- apps/mobile/src/api, which are one call of the client each, beyond the types that a modelled screen reads; the Google widget's
-- loader; the backend, which is in Python, and the extension, which is in JavaScript.
pub mod Common
pub mod Search
pub mod Plans
pub mod Web
pub mod Mobile
pub mod Record
