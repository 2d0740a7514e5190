-- ===== src/Mobile/ApplicationDetail/Saving.antt =====
-- What saving a review sends, and what it does to answers that are typed meanwhile:
-- apps/mobile/src/screens/ApplicationDetailScreen.tsx.
use kall.Common.{
  ℕ, String, ◌≡◌, refl, sym, ◌∙◌, ap, true, false, Option, none, some, List, [], ◌∷◌, ◌++◌, arith,
}
use mathlib.Core.List.{append_assoc, append-nil}
use kall.Mobile.Task.{
  Failure, Result, ok, failed, Server, End, run, Event, starts, answers, play, ◌>>=◌, catch,
  api_message,
}
use kall.Mobile.Task.Runs.{run-bind, run-catch, run-finally, caught}
use kall.Mobile.Tailoring.Handlers.{text_or}
use kall.Mobile.ApplicationDetail.{
  load, Answer, ReviewData, Request, post_review, get_review, save_answer, Response, Drafts, Screen,
  drafts_from, save_answers, save_work, save_refused, save_reviewed, save_review, say, set_busy,
  type_answer, or_first,
}

module _ (application : ℕ) (drafts : Drafts) where
  -- One request for each answer, with what its field holds.
  abbrev pub saves : List Answer → List Request
  saves [] = []
  saves (a ∷ as') = save_answer application a.id (text_or (drafts a.id) "") ∷ saves as'

  -- Every answer is sent, also behind one that is refused.
  pub save_answers-sent :
      (server : Server Request Response) (as' : List Answer) (first : Option Failure) (s : Screen)
      (sent : List Request)
      → (run server (save_answers application drafts as' first) s sent).sent ≡ sent ++ saves as'
  unfolding save_answers run
  save_answers-sent server [] none s sent = sym (append-nil sent)
  save_answers-sent server [] (some e) s sent = sym (append-nil sent)
  save_answers-sent server (a ∷ as') first s sent =
      let r = save_answer application a.id (text_or (drafts a.id) "") in
      save_answers-sent server as' (or_first first (server sent r)) s (sent ++ r ∷ [])
      ∙ append_assoc sent (r ∷ []) (saves as')

module _ (server : Server Request Response) (application : ℕ) (drawn : Screen) (review : ReviewData)
    (s : Screen) where
  abbrev begun : Screen
  begun = record s { busy = true; message = "" }

  abbrev saved : End Screen Request Unit
  saved = run server (save_answers application drawn.answer_drafts review.answers none) begun []

  abbrev stopped : Failure → End Screen Request Unit
  stopped e = record { value = failed e; screen = saved.screen; sent = saved.sent }

  stopped_work :
      (e : Failure)
      → saved.value ≡ failed e
      → run server (save_work application drawn.answer_drafts review) begun [] ≡ stopped e
  unfolding save_work
  stopped_work e refused =
      run-bind server (save_answers application drawn.answer_drafts review.answers none) _ begun []
      ∙ rw refused refl

  abbrev reported : Failure → End Screen Request Unit
  reported e = record {
    value = ok tt;
    screen = set_busy false (say (api_message "Unable to save this review." e) saved.screen);
    sent = saved.sent;
  }

  reported_work :
      (e : Failure)
      → saved.value ≡ failed e
      → run server (save_reviewed application drawn.answer_drafts review) s [] ≡ reported e
  unfolding save_reviewed ◌>>=◌ run
  reported_work e refused =
      let work = save_work application drawn.answer_drafts review in
      run-finally server (catch work save_refused) (set_busy false) begun []
      ∙ ap (λ (c : End Screen Request Unit). record c { screen = set_busy false c.screen })
          (run-catch server work save_refused begun []
            ∙ ap
                (λ (c : End Screen Request Unit).
                  caught server save_refused c.value c.screen c.sent)
                (stopped_work e refused))

  -- If one of the answers is refused, then all of them have been sent, the checklist is not confirmed, and
  -- the screen says why and is no longer busy.
  pub refused_answer :
      (e : Failure)
      → drawn.review ≡ some review
      → saved.value ≡ failed e
      → let end' = run server (save_review application drawn) s [] in
        (end'.sent ≡ saves application drawn.answer_drafts review.answers)
        × (end'.screen.message ≡ api_message "Unable to save this review." e)
        × (end'.screen.busy ≡ false)
  unfolding save_review
  refused_answer e shown refused =
      let end' = reported_work e refused in
      let sent =
        save_answers-sent application drawn.answer_drafts server review.answers none begun [] in
      rw shown (
        ap (λ (c : End Screen Request Unit). c.sent) end' ∙ sent,
        ap (λ (c : End Screen Request Unit). c.screen.message) end',
        ap (λ (c : End Screen Request Unit). c.screen.busy) end',
      )

-- The screen reloads, which it also does after a save, and the person types while the review is read.
abbrev pub typed_while_loading :
    (application : ℕ)
    → ((r : Request) → Result (Response r))
    → (drawn : Screen) → ℕ
    → String
    → List (Event Screen Request Response)
typed_while_loading application answer drawn id text =
    starts (load application)
    ∷ answers 0 answer
    ∷ starts (type_answer drawn id text)
    ∷ answers 1 answer
    ∷ []

-- What is typed while the review is read is replaced by the answers that were read.
pub typed_is_replaced :
    (application : ℕ) (answer : (r : Request) → Result (Response r)) (drawn s : Screen) (id : ℕ)
    (text : String) (review : ReviewData)
    → answer (post_review application) ≡ ok tt
    → answer (get_review application) ≡ ok review
    → let after =
        (play
          (typed_while_loading application answer drawn id text)
          (record { screen = s; waiting = [] })).screen in
      (after.answer_drafts ≡ drafts_from review.answers (λ _. none)) × (after.review ≡ some review)
unfolding play load type_answer
typed_is_replaced application answer drawn s id text review h k = ground (arith, h, k)
