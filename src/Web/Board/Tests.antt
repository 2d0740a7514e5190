-- ===== src/Web/Board/Tests.antt =====
-- The board at a concrete application.
use kall.Common.{◌≡◌, refl, true, none, some, []}
use kall.Common.Json.{end, obj}
use kall.Search.Suppression.{initial as no_results, is_search_result_hidden}
use kall.Search.Suppression.Tests.{plain_urls, posting, posting-IsStable}
use kall.Web.Board.{PipelineItem, ready, threw, replied, Board, move_application}
use kall.Web.Board.Laws.{move-hides}

abbrev item : PipelineItem
item = record { id = 3; stage = "submitted"; company = "Ex"; role = "QA"; job_url = some posting }

abbrev board : Board
board = record {
  pipeline = none;
  view = ready;
  error = "";
  busy_id = none;
  store = no_results;
  toasts = [];
}

move-hides_example :
    is_search_result_hidden plain_urls
      (move_application plain_urls "null" "now" item "closed"
        (replied 200 (obj end))
        (threw "offline")
        board).store
      posting
    ≡ true
move-hides_example =
    move-hides plain_urls "null" "now" "closed" posting posting item 200 (obj end) (threw "offline")
      board refl refl refl refl posting-IsStable refl
