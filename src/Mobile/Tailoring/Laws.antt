-- ===== src/Mobile/Tailoring/Laws.antt =====
-- What the handlers of the tailoring screen send and leave behind: apps/mobile/src/screens/
-- TailoringScreen.tsx.
use kall.Common.{
  ℕ, String, ◌≡◌, refl, ◌∙◌, ap, Bool-cases, true, false, Option, inl, inr, none, some, List, [],
  ◌∷◌, arith, str_eq, if◌then◌else◌,
}
use kall.Common.Text.{trim, is_nonempty}
use kall.Mobile.Task.{
  Failure, Result, ok, failed, Server, End, run, ◌>>=◌, catch, finally, set, error_message,
}
use kall.Mobile.Task.Keeps.{Sends}
use kall.Mobile.Task.Runs.{caught, run-catch, run-finally}
use kall.Mobile.Tailoring.{
  TailoringChange, Decision, accepted, edited, rejected, Request, decide_change, restart_tailoring,
  fetch_application, Response, Drafts, Screen,
}
use kall.Mobile.Tailoring.Handlers.{
  Handler, busy_with, send_decision, send_edited, trimmed, decide, confirm, say, text_or,
}
use kall.Mobile.Tailoring.Documents.{restart}

module _ (server : Server Request Response) where
  abbrev pub ended : (fallback : String) → Result Unit → Screen → Screen
  ended fallback (ok _) s = s
  ended fallback (failed e) s = say (error_message fallback e) s

  finished :
      (fallback : String) (v : Result Unit) (s : Screen) (sent : List Request)
      → (let e = caught server (λ e. set (say (error_message fallback e))) v s sent in
          record e { screen = record e.screen { busy = none } })
        ≡ record {
          value = ok tt;
          screen = record (ended fallback v s) { busy = none };
          sent = sent;
        }
  unfolding run
  finished fallback (ok _) s sent = refl
  finished fallback (failed e) s sent = refl

  -- Work that is done under a key never leaves the screen busy, throws nothing further, sends what it
  -- sends, and shows what it threw or the fallback.
  pub busy_with-run :
      (key fallback : String) (work : Handler Unit) (s : Screen) (sent : List Request)
      → let e = run server work (record s { busy = some key; message = "" }) sent in
        run server (busy_with key work fallback) s sent ≡ record {
          value = ok tt;
          screen = record (ended fallback e.value e.screen) { busy = none };
          sent = e.sent;
        }
  unfolding busy_with run ◌>>=◌
  busy_with-run key fallback work s sent =
      let begun : Screen = record s { busy = some key; message = "" } in
      let last : Screen → Screen = λ x. record x { busy = none } in
      let shown : Failure → Handler Unit = λ e. set (say (error_message fallback e)) in
      let e = run server work begun sent in
      run-finally server (catch work shown) last begun sent
      ∙ ap (λ (c : End Screen Request Unit). record c { screen = last c.screen })
          (run-catch server work shown begun sent)
      ∙ finished fallback e.value e.screen e.sent

-- A text that is sent as edited is not empty.
abbrev pub IsWritten : Request → Type 0
IsWritten (decide_change id edited (some text)) = is_nonempty text ≡ true
IsWritten _ = Unit

send-Sends :
    (id : ℕ) (d : Decision) (text : Option String)
    → IsWritten (decide_change id d text)
    → Sends IsWritten (send_decision id d text)
unfolding send_decision ◌>>=◌ catch finally
send-Sends id d text h = (h, (λ _. tt), (λ _. tt))

edited-Sends : (id : ℕ) (text : Option String) → Sends IsWritten (send_edited id (trimmed text))
edited-Sends id none = tt
edited-Sends id (some t) = elim (Bool-cases (is_nonempty (trim t))) [
  | inl written ↦ rw written (send-Sends id edited (some (trim t)) written)
  | inr blank ↦ rw blank tt
]

decide-Sends :
    (drafts : Drafts) (c : TailoringChange) (d : Decision) → Sends IsWritten (decide drafts c d)
unfolding decide
decide-Sends drafts c accepted = send-Sends c.id accepted none tt
decide-Sends drafts c rejected = send-Sends c.id rejected none tt
decide-Sends drafts c edited = edited-Sends c.id (drafts c.id)

-- Whatever is in the editor, confirming a suggestion sends no edited text that is empty or blank.
pub confirm-Sends : (drafts : Drafts) (c : TailoringChange) → Sends IsWritten (confirm drafts c)
unfolding confirm
confirm-Sends drafts c =
    elim (str_eq (trim (text_or (drafts c.id) "")) c.proposed_text)
      as (λ b. Sends IsWritten (if b then decide drafts c accepted else decide drafts c edited)) [
        | true ↦ decide-Sends drafts c accepted
        | false ↦ decide-Sends drafts c edited
      ]

-- After a restart that the server grants, a reload that fails is not mentioned: the screen shows no
-- proposal, and says that a fresh draft is started.
pub restart-hides_failure :
    (server : Server Request Response) (application : ℕ) (e : Failure) (s : Screen)
    → server [] (restart_tailoring application) ≡ ok tt
    → server (restart_tailoring application ∷ []) (fetch_application application) ≡ failed e
    → let end' = run server (restart application) s [] in
      (end'.screen.message ≡ "Starting over with a fresh draft.")
      × (end'.screen.proposal ≡ none)
      × (end'.screen.changes ≡ [])
      × (end'.screen.busy ≡ none)
unfolding restart run ◌>>=◌ catch finally
restart-hides_failure server application e s h k = ground (arith, h, k)
