-- ===== src/Http/Staging.antt =====
-- The answer of the route that stages, when no statement of the database fails.
use storm_tape.Prelude.{
  ◌≡◌, ◌≢◌, refl, ap, ◌∙◌, Option, none, some, List, [], ◌∷◌, Text, false, keep,
}
use storm_tape.Path.{text}
use storm_tape.Model.{TimePoint, StageId, LogicalPath, File, StageRequest}
use storm_tape.Database.Session.{World, Result, ok, err, Error, Db, pure, raise, soci_error, ◌>>=◌}
use storm_tape.Database.Sql.{has_stage, in_stage}
use storm_tape.Database.Runs.{IsQuiet, Runs, bind_ok}
use storm_tape.Database.RoundTrip.{with_stage}
use storm_tape.Resolver.Resolve.{IsValidAreas}
use storm_tape.AccessLog.{Context, new_context}
use storm_tape.Service.{TapeService, StageResponse, stage}
use storm_tape.Service.Submit.{AreResolved, distinct_files, stage-stores}
use storm_tape.Http.{
  HostInfo, Response, empty, words, json_object, reply, make_location, stage_reply,
}
use storm_tape.Http.Requests.{Json, Parsers, files_from_json, get_hostinfo}
use storm_tape.Path.{is_empty}
use storm_tape.Http.Routes.{guarded, handled, or_raise, invalid_json, post_stage}
use storm_tape.Http.Contexts.{post_stage_request, stage_logged, stage_context, context}

-- The request as the route makes it.
abbrev pub staged_request : TimePoint → List File → StageRequest
staged_request now files = record {
  files = files;
  created_at = now;
  started_at = 0;
  completed_at = 0;
}

-- 201 with the id and the location; and 500 where the headers cannot be read.
abbrev pub created_reply : StageId → Option HostInfo → Response
created_reply id none = reply 500 empty
created_reply id (some info) = record {
  code = 201;
  body = json_object ((text "requestId", words id) ∷ []);
  location = some (make_location info id);
}

abbrev pub created_context : StageId → List File → Option HostInfo → Context
created_context id stored none = record new_context { operation = text "STAGE" }
created_context id stored (some info) = record {
  operation = text "STAGE";
  stage_id = id;
  files = stored;
}

-- The end of the route, before the catch clauses.
abbrev located : StageResponse → Option HostInfo → Result Response
located resp none = err soci_error
located resp (some info) = ok (stage_reply resp info)

located-eq :
    (resp : StageResponse) (o : Option HostInfo) (w : World)
    → (or_raise soci_error o >>= λ info. pure (stage_reply resp info)) w ≡ (located resp o, w)
unfolding or_raise ◌>>=◌ raise pure
located-eq resp none w = refl
located-eq resp (some info) w = refl

is_empty-false : (t : Text) → t ≢ [] → is_empty t ≡ false
is_empty-false [] h = absurd (h refl)
is_empty-false (c ∷ cs) h = refl

handled-located :
    (id : StageId) (stored : List File) (o : Option HostInfo)
    → id ≢ []
    → handled (located (record { id = id; files = stored }) o) ≡ ok (created_reply id o)
unfolding stage_reply
handled-located id stored none h = refl
handled-located id stored (some info) h = rw (is_empty-false id h)

or_raise-some :
    {A B : Type 0} (e : Error) (o : Option A) (a : A) (f : A → Db B) (w : World)
    → o ≡ some a
    → (or_raise e o >>= f) w ≡ f a w
unfolding or_raise ◌>>=◌ pure
or_raise-some e o a f w h = rw h

stage_logged-eq :
    (id : StageId) (stored : List File) (o : Option HostInfo)
    → stage_logged (ok (record { id = id; files = stored })) o ≡ created_context id stored o
unfolding stage_logged
stage_logged-eq id stored none = refl
stage_logged-eq id stored (some info) = refl

module _ (J : Json) (P : Parsers) (T : TapeService) (quiet : IsQuiet T.db) where
  -- If no statement fails, the storage areas are valid, and the body is understood, then a request to
  -- stage under a new id that is not empty, and for which no row is left, stores the stage with its
  -- files, sorted, each path once, each resolved and checked. It answers 201 with the id and the
  -- location, and the id and the files are logged; but if the port of the Forwarded header cannot be
  -- read, it answers 500 with no id, and nothing but the operation is logged, although the stage is
  -- stored.
  pub post_stage-creates :
      (id : StageId) (now : TimePoint) (clock : LogicalPath → TimePoint)
      (body forwarded host : Text) (files : List File) (w : World)
      → IsValidAreas T.config.storage_areas
      → files_from_json J body ≡ some files
      → id ≢ []
      → has_stage id w.tables.stages ≡ false
      → keep (in_stage id) w.tables.files ≡ []
      → (let info = get_hostinfo P forwarded host T.config in
          (stored : List File) × Runs
            (post_stage J P T id now clock body forwarded host)
            w
            (created_reply id info)
            (with_stage id (staged_request now stored) w.tables)
          × (context J P T (post_stage_request id now clock body forwarded host) w
              ≡ created_context id stored info)
          × AreResolved T.kernel T.config.storage_areas clock (distinct_files files) stored)
  unfolding post_stage guarded context
  post_stage-creates id now clock body forwarded host files w areas e some_id new none_left =
      let info = get_hostinfo P forwarded host T.config in
      let (stored, ran, resolved, _) =
        stage-stores T quiet id clock (staged_request now files) w areas new none_left in
      let resp : StageResponse = record { id = id; files = stored } in
      let unguarded =
        or_raise-some invalid_json (files_from_json J body) files _ w e
        ∙ bind_ok (stage T id clock (staged_request now files)) _ w ran.after resp ran.result
        ∙ located-eq resp info ran.after in
      (
        stored,
        record {
          after = ran.after;
          result =
              ap (λ (y : Result Response × World). (handled y.0, y.1)) unguarded
              ∙ ap (λ x. (x, ran.after)) (handled-located id stored info some_id);
          tables = ran.tables;
          calls = ran.calls;
        },
        ap (λ o. stage_context J P T id now clock o info w) e
            ∙ ap (λ (y : Result StageResponse × World). stage_logged y.0 info) ran.result
            ∙ stage_logged-eq id stored info,
        resolved,
      )
