-- ===== src/Web/Board/Laws.antt =====
-- What the board does to the hidden search results.
use kall.Common.{
  ℕ, String, ◌≡◌, refl, sym, ap, ◌∙◌, Bool, true, false, ◌&&◌, some, arith, str_eq, if◌then◌else◌,
}
use mathlib.Core.Path.{subst}
use kall.Common.Text.{before}
use kall.Common.Json.{Json, Fields, obj}
use kall.Common.Http.{is_ok}
use kall.Search.Url.{UrlApi, normalize}
use kall.Search.Suppression.{is_search_result_hidden, applied_external}
use kall.Search.Suppression.Entries.{
  IsStable, IsAbsent, HasDistinct, restore-IsAbsent, hide-covers_queries,
}
use kall.Web.Board.{
  PipelineItem, Reply, threw, replied, Board, load_pipeline, move_application, remove_application,
  ends_search, link, after_move, hide_link, moved, removed, removed_url, restore_link,
}

module _ (api : UrlApi) (null_error : String) where
  store-load_pipeline : (r : Reply) (s : Board) → (load_pipeline api null_error r s).store ≡ s.store
  unfolding load_pipeline
  store-load_pipeline (threw message) s = refl
  store-load_pipeline (replied status body) s = ground arith

  move-store :
      (now stage : String) (item : PipelineItem) (status : ℕ) (body : Json) (reload : Reply)
      (s : Board)
      → str_eq stage item.stage ≡ false
      → is_ok status ≡ true
      → (move_application api null_error now item stage (replied status body) reload s).store
        ≡ after_move api null_error now item stage s.store
  unfolding move_application
  move-store now stage item status body reload s new good =
      ground (arith, store-load_pipeline reload (moved api null_error now item stage s))

  -- Once an application is moved to an end stage with success, whatever the reload answers, its posting is
  -- hidden from the search results, with and without a query string.
  pub move-hides :
      (now stage url other : String) (item : PipelineItem) (status : ℕ) (body : Json)
      (reload : Reply) (s : Board)
      → str_eq stage item.stage ≡ false
      → ends_search stage ≡ true
      → is_ok status ≡ true
      → link item.job_url ≡ some url
      → IsStable api url
      → before b'?' (normalize api other) ≡ before b'?' (normalize api url)
      → is_search_result_hidden api
          (move_application api null_error now item stage (replied status body) reload s).store
          other
        ≡ true
  move-hides now stage url other item status body reload s new ends good there stable same =
      ap (λ store. is_search_result_hidden api store other)
        (move-store now stage item status body reload s new good
          ∙ ap
              (λ b.
                if b
                then hide_link api null_error now item (link item.job_url) s.store
                else s.store)
              ends
          ∙ ap (λ o. hide_link api null_error now item o s.store) there)
      ∙ hide-covers_queries api url other (some item.role) applied_external now s.store stable same

  -- Whether an answer moves the application to an end stage.
  abbrev pub hides : String → Reply → Bool
  hides stage (threw message) = false
  hides stage (replied status body) = is_ok status && ends_search stage

  -- A move that the server refuses, or that does not reach it, and a move to another stage leave the hidden
  -- results as they are.
  pub move-keeps :
      (now stage : String) (item : PipelineItem) (reply reload : Reply) (s : Board)
      → hides stage reply ≡ false
      → (move_application api null_error now item stage reply reload s).store ≡ s.store
  unfolding move_application
  move-keeps now stage item (threw message) reload s h = ground arith
  move-keeps now stage item (replied status body) reload s h =
      ground (arith, store-load_pipeline reload (moved api null_error now item stage s))

  removal-store :
      (item : PipelineItem) (status : ℕ) (fields : Fields) (reload : Reply) (s : Board)
      → is_ok status ≡ true
      → (remove_application api null_error true item (replied status (obj fields)) reload s).store
        ≡ restore_link api null_error (link (removed_url api null_error (obj fields) item)) s.store
  unfolding remove_application
  removal-store item status fields reload s good =
      ground (arith, store-load_pipeline reload (removed api null_error (obj fields) item s))

  -- After a removal that the server confirms with an object, no hidden result has the address of the posting,
  -- and each other one is there once.
  pub removal-restores :
      (url : String) (item : PipelineItem) (status : ℕ) (fields : Fields) (reload : Reply)
      (s : Board)
      → is_ok status ≡ true
      → link (removed_url api null_error (obj fields) item) ≡ some url
      → HasDistinct api s.store.cache
      → (let after =
            remove_application api null_error true item (replied status (obj fields)) reload s in
          IsAbsent api (normalize api url) after.store.cache × HasDistinct api after.store.cache)
  removal-restores url item status fields reload s good there h =
      subst (λ store. IsAbsent api (normalize api url) store.cache × HasDistinct api store.cache)
        (sym (
          removal-store item status fields reload s good
          ∙ ap (λ o. restore_link api null_error o s.store) there))
        (restore-IsAbsent api url s.store h)
