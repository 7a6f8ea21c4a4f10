-- ===== src/Http/Routes.antt =====
-- routes.cpp: the handlers of the routes, with the exceptions that each turns into a response.
use storm_tape.Prelude.{Option, none, some, List, [], ◌∷◌, ◌++◌, Text}
use storm_tape.Model.{TimePoint, StageId, LogicalPath}
use storm_tape.Path.{text}
use storm_tape.Database.Session.{
  Error, Result, ok, err, soci_error, stage_not_found, bad_request, undefined, Db, pure, raise,
  ◌>>=◌, ◌>>◌,
}
use storm_tape.Service.{
  TapeService, PathsResponse, stage, status, cancel, erase, release, archive_info, ready_take_over,
}
use storm_tape.Service.Recall.{take_over, in_progress}
use storm_tape.Http.{
  Response, empty, txt, problem, reply, stage_reply, status_reply, paths_reply, archive_reply,
  take_over_reply, in_progress_reply,
}
use storm_tape.Http.Requests.{
  Json, Parsers, files_from_json, paths_from_json, get_hostinfo, from_body_params,
  from_query_params,
}
use storm_tape.Http.Numbers.{decimal}

-- The catch clauses: an HttpError has its status and its title, any other exception is a 500. What is
-- undefined behaviour is no exception.
abbrev pub handled : Result Response → Result Response
handled (ok r) = ok r
handled (err (stage_not_found id)) = ok (reply 404 (problem 404 (text "Stage not found")))
handled (err (bad_request what)) = ok (reply 400 (problem 400 what))
handled (err soci_error) = ok (reply 500 empty)
handled (err undefined) = err undefined

unfoldable pub guarded : Db Response → Db Response
guarded m w = (handled (m w).0, (m w).1)

-- What is read from a request, or the exception.
unfoldable pub or_raise : {A : Type 0} → Error → Option A → Db A
or_raise e none = raise e
or_raise e (some a) = pure a

abbrev pub invalid_json : Error
invalid_json = bad_request (text "Invalid JSON")

abbrev pub invalid_parameters : Error
invalid_parameters = bad_request (text "Invalid query parameters")

-- `if (resp.invalid.empty()) return crow::response{crow::status::OK};`
unfoldable pub paths_answer : PathsResponse → Response
unfolding paths_reply
paths_answer resp = pick resp.invalid
  where
    pick : List LogicalPath → Response
    pick [] = reply 200 empty
    pick (p ∷ ps) = paths_reply resp

module _ (J : Json) (P : Parsers) (T : TapeService) where
  -- POST /api/v1/stage
  unfoldable pub post_stage :
      StageId → TimePoint → (LogicalPath → TimePoint) → Text → Text → Text → Db Response
  unfolding guarded or_raise stage files_from_json get_hostinfo stage_reply
  post_stage id now clock body forwarded host = guarded (do
    files ← or_raise invalid_json (files_from_json J body)
    resp ←
        stage T id clock
          (record { files = files; created_at = now; started_at = 0; completed_at = 0 })
    info ← or_raise soci_error (get_hostinfo P forwarded host T.config)
    pure (stage_reply resp info))

  -- GET /api/v1/stage/<id>
  unfoldable pub get_status : StageId → TimePoint → Db Response
  unfolding guarded status status_reply
  get_status id now = guarded (do resp ← status T id now; pure (status_reply resp))

  -- POST /api/v1/stage/<id>/cancel
  unfoldable pub post_cancel : StageId → Text → TimePoint → Db Response
  unfolding guarded or_raise cancel paths_from_json paths_answer
  post_cancel id body now = guarded (do
    paths ← or_raise invalid_json (paths_from_json J body)
    resp ← cancel T id paths now
    pure (paths_answer resp))

  -- DELETE /api/v1/stage/<id>
  unfoldable pub delete_stage : StageId → Db Response
  unfolding guarded erase
  delete_stage id = guarded (do erase T id; pure (reply 200 empty))

  -- POST /api/v1/release/<id>
  unfoldable pub post_release : StageId → Text → Db Response
  unfolding guarded or_raise release paths_from_json paths_answer
  post_release id body = guarded (do
    paths ← or_raise invalid_json (paths_from_json J body)
    resp ← release T id paths
    pure (paths_answer resp))

  -- POST /api/v1/archiveinfo
  unfoldable pub post_archiveinfo : Text → Db Response
  unfolding guarded or_raise archive_info paths_from_json archive_reply
  post_archiveinfo body = guarded (do
    paths ← or_raise invalid_json (paths_from_json J body)
    resp ← archive_info T paths
    pure (archive_reply resp))

  -- /recalltable/cardinality/tasks/readyTakeOver
  unfoldable pub get_ready : Db Response
  unfolding guarded ready_take_over decimal
  get_ready = guarded (do n ← ready_take_over T; pure (reply 200 (txt (decimal n ++ text "\n"))))

  -- PUT /recalltable/tasks
  unfoldable pub put_tasks : Text → TimePoint → Db Response
  unfolding guarded or_raise take_over from_body_params take_over_reply
  put_tasks body now = guarded (do
    n_files ← or_raise invalid_parameters (from_body_params P body)
    resp ← take_over T n_files now
    pure (take_over_reply resp))

  -- /recalltable/in_progress
  unfoldable pub get_in_progress : Option Text → Option Text → Db Response
  unfolding guarded in_progress from_query_params in_progress_reply
  get_in_progress n precise =
      let (n_files, exact) = from_query_params P n precise in
      guarded (do resp ← in_progress T n_files exact; pure (in_progress_reply resp))
