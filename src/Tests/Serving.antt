-- ===== src/Tests/Serving.antt =====
-- Histories of HTTP requests.
use storm_tape.Prelude.{All, ◌≡◌, refl, none, some, [], ◌∷◌, arith, List}
use storm_tape.Path.{text}
use storm_tape.Database.Rows.{IsValid}
use storm_tape.Database.Owned.{IsOwned}
use storm_tape.Http.Contexts.{
  Request, post_stage_request, status_request, cancel_request, tasks_request, delete_request,
  answer, context,
}
use storm_tape.Http.Requests.{Json, Parsers, files_from_json, get_hostinfo}
use storm_tape.Http.Serving.{call_of, after_call, answer-call, answer_all, answer_all-IsValid}
use storm_tape.Model.{File, new_file}
use storm_tape.Path.{is_absolute, path_eq, lexically_normal}
use storm_tape.Database.Runs.{Runs}
use storm_tape.Database.Sql.{has_stage}
use storm_tape.Database.RoundTrip.{with_stage}
use storm_tape.Service.Submit.{AreResolved, distinct_files}
use storm_tape.Http.Routes.{post_stage}
use storm_tape.Http.Normalised.{IsNormalised, files_from_json-IsNormalised}
use storm_tape.Http.Staging.{staged_request, created_reply, created_context, post_stage-creates}
use storm_tape.Tests.{service, quiet, kernel, areas, areas-IsValid, no_rows, two_files}
use storm_tape.Tests.Answers.{json, parsers}

-- A library for which a body is an object whose member "files" is an array of one object, whose member
-- "path" is the body.
abbrev files_json : Json
files_json = record json { at = λ v key. some v }

abbrev requests : List Request
requests =
    post_stage_request (text "s") 3 (λ p. 4) (text "/a/x") [] []
    ∷ status_request (text "s") 5
    ∷ tasks_request [] 6
    ∷ cancel_request (text "s") (text "/a/x") 7
    ∷ delete_request (text "t")
    ∷ []

answer_all-IsValid_example :
    IsValid (answer_all files_json parsers service requests no_rows).tables
    × IsOwned (answer_all files_json parsers service requests no_rows).tables
answer_all-IsValid_example =
    answer_all-IsValid files_json parsers service requests no_rows
      ((λ p. omega arith), (omega arith, (omega arith, (omega arith, (tt, tt)))))
      (record { rows = tt; file_keys = tt; stage_keys = tt }) tt

answer-call_example :
    (answer json parsers service (cancel_request (text "s") (text "/a/b") 7) two_files).1
    ≡ after_call json parsers service
        (call_of json parsers service (cancel_request (text "s") (text "/a/b") 7))
        two_files
answer-call_example =
    answer-call json parsers service (cancel_request (text "s") (text "/a/b") 7) two_files

a_body : files_from_json files_json (text "/a/x") ≡ some (new_file (text "/a/x") ∷ [])
unfolding files_from_json lexically_normal
a_body = refl

files_from_json-IsNormalised_example : All IsNormalised (new_file (text "/a/x") ∷ [])
files_from_json-IsNormalised_example =
    files_from_json-IsNormalised files_json (text "/a/x") (new_file (text "/a/x") ∷ []) a_body

post_stage-creates_example :
    (stored : List File) × Runs
      (post_stage files_json parsers service (text "s") 3 (λ p. 4) (text "/a/x") [] [])
      no_rows
      (created_reply (text "s") (get_hostinfo parsers [] [] service.config))
      (with_stage (text "s") (staged_request 3 stored) no_rows.tables)
    × (context files_json parsers service
          (post_stage_request (text "s") 3 (λ p. 4) (text "/a/x") [] [])
          no_rows
        ≡ created_context (text "s") stored (get_hostinfo parsers [] [] service.config))
    × AreResolved kernel areas (λ p. 4) (distinct_files (new_file (text "/a/x") ∷ [])) stored
unfolding is_absolute path_eq lexically_normal has_stage
post_stage-creates_example =
    post_stage-creates files_json parsers service quiet (text "s") 3 (λ p. 4) (text "/a/x") [] []
      (new_file (text "/a/x") ∷ []) no_rows areas-IsValid a_body (λ e. ground arith) refl refl

-- Where the port of the Forwarded header is no int, there is no information on the host.
abbrev overflowing : Parsers
overflowing = record parsers {
  lexical_convert = λ t. none;
  port_of = λ t. some (text "99999999999");
}

lost : get_hostinfo overflowing (text "port=99999999999") [] service.config ≡ none
unfolding get_hostinfo
lost = refl
