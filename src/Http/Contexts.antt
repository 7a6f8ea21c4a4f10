-- ===== src/Http/Contexts.antt =====
-- routes.cpp: what each route writes to the context of the access logger. The answer of a request is
-- that of Http/Routes.
use storm_tape.Prelude.{Option, none, some, List, Text}
use storm_tape.Path.{text}
use storm_tape.Model.{TimePoint, StageId, LogicalPath, File}
use storm_tape.Database.Session.{Result, ok, Db, World}
use storm_tape.AccessLog.{Context, new_context}
use storm_tape.Service.{TapeService, StageResponse, stage}
use storm_tape.Http.{HostInfo, Response}
use storm_tape.Http.Requests.{Json, Parsers, files_from_json, get_hostinfo}
use storm_tape.Http.Routes.{
  post_stage, get_status, post_cancel, delete_stage, post_release, post_archiveinfo, get_ready,
  put_tasks, get_in_progress,
}

-- A request that reaches a route, with the headers that the routes read and the values that its
-- handler takes from the clock and from the UUID generator.
pub data Request : Type 0 where
  post_stage_request :
      StageId → TimePoint → (LogicalPath → TimePoint) → Text → Text → Text → Request
  status_request : StageId → TimePoint → Request
  cancel_request : StageId → Text → TimePoint → Request
  delete_request : StageId → Request
  release_request : StageId → Text → Request
  archiveinfo_request : Text → Request
  ready_request : Request
  tasks_request : Text → TimePoint → Request
  in_progress_request : Option Text → Option Text → Request

abbrev for_operation : Text → Context
for_operation operation = record new_context { operation = operation }

abbrev for_stage : Text → StageId → Context
for_stage operation id = record new_context { operation = operation; stage_id = id }

-- The id and the files are written once the response is made.
unfoldable pub stage_logged : Result StageResponse → Option HostInfo → Context
stage_logged (ok resp) (some info) = record {
  operation = text "STAGE";
  stage_id = resp.id;
  files = resp.files;
}
stage_logged r h = for_operation (text "STAGE")

module _ (J : Json) (P : Parsers) (T : TapeService) where
  unfoldable pub stage_context :
      StageId
      → TimePoint
      → (LogicalPath → TimePoint)
      → Option (List File)
      → Option HostInfo
      → World
      → Context
  unfolding stage_logged
  stage_context id now clock none info w = for_operation (text "STAGE")
  stage_context id now clock (some files) info w =
      let made =
        stage T id clock
          (record { files = files; created_at = now; started_at = 0; completed_at = 0 }) w in
      stage_logged made.0 info

  unfoldable pub context : Request → World → Context
  unfolding stage_context files_from_json get_hostinfo
  context (post_stage_request id now clock body forwarded host) w =
      stage_context id now clock (files_from_json J body) (get_hostinfo P forwarded host T.config) w
  context (status_request id now) w = for_stage (text "STATUS") id
  context (cancel_request id body now) w = for_stage (text "CANCEL") id
  context (delete_request id) w = for_stage (text "DELETE") id
  context (release_request id body) w = for_stage (text "RELEASE") id
  context (archiveinfo_request body) w = for_operation (text "ARCHIVEINFO")
  context ready_request w = for_operation (text "READY")
  context (tasks_request body now) w = for_operation (text "TAKE_OVER")
  context (in_progress_request n precise) w = for_operation (text "IN_PROGRESS")

  unfoldable pub answer : Request → Db Response
  answer (post_stage_request id now clock body forwarded host) =
      post_stage J P T id now clock body forwarded host
  answer (status_request id now) = get_status J P T id now
  answer (cancel_request id body now) = post_cancel J P T id body now
  answer (delete_request id) = delete_stage J P T id
  answer (release_request id body) = post_release J P T id body
  answer (archiveinfo_request body) = post_archiveinfo J P T body
  answer ready_request = get_ready J P T
  answer (tasks_request body now) = put_tasks J P T body now
  answer (in_progress_request n precise) = get_in_progress J P T n precise
