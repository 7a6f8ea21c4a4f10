-- ===== src/Tests/Answers.antt =====
-- Runs of the HTTP layer.
use storm_tape.Prelude.{◌≡◌, refl, sym, subst, none, some, [], ◌∷◌, ◌++◌, arith, Text}
use storm_tape.Path.{text}
use storm_tape.Database.Session.{World, ok}
use storm_tape.Database.Lookup.{find_in}
use storm_tape.Config.{pos}
use storm_tape.Http.{Response, missing_text, quoted_by}
use storm_tape.Http.Numbers.{decimal}
use storm_tape.Http.Messages.{named, missing_text-last}
use storm_tape.Http.Parameters.{from_body_params-decimal}
use storm_tape.Http.Requests.{Json, Parsers, paths_from_json, split_host, from_body_params}
use storm_tape.Http.Routes.{post_cancel, get_status}
use storm_tape.Http.Statuses.{Reported, IsReportable, get_status-Reported}
use storm_tape.Tests.Stored.{
  found_two, two_files-IsValid, two_files-IsOwned, two_found-DistinctPhysical,
}
use storm_tape.Http.Answers.{Answered, post_cancel-Answered}
use storm_tape.Tests.{service, quiet, two_files}

decimal_large : decimal 1024 ≡ text "1024"
unfolding decimal
decimal_large = refl

split_port : split_host (text "host:8080") ≡ (text "host", some (text "8080"))
unfolding split_host
split_port = refl

missing_text-last_example :
    missing_text [] ((text "/a" ∷ []) ++ text "/bb" ∷ []) ≡ named (text "/bb")
unfolding quoted_by
missing_text-last_example = missing_text-last (text "/a" ∷ []) (text "/bb") (omega arith, tt)

-- A library for which a body is an array of one text, itself.
abbrev pub json : Json
json = record {
  Value = Text;
  parse = λ body. some body;
  at = λ v key. none;
  if_contains = λ v key. some (some v);
  as_array = λ v. some (v ∷ []);
  as_string = λ v. some v;
}

abbrev pub parsers : Parsers
parsers = record {
  first_param = λ t. some none;
  lexical_convert = λ t. some (pos 80);
  proto_of = λ t. none;
  host_of = λ t. none;
  port_of = λ t. none;
}

post_cancel-Answered_example :
    (resp : Response) × (w' : World) × (post_cancel json parsers service
        (text "s")
        (text "/a/b")
        9
        two_files
      ≡ (ok resp, w'))
    × Answered json parsers service quiet
        (text "s")
        9
        two_files
        (paths_from_json json (text "/a/b"))
        (find_in (text "s") two_files.tables)
        (resp, w')
post_cancel-Answered_example =
    post_cancel-Answered json parsers service quiet (text "s") (text "/a/b") 9 two_files

-- A parser that finds "first" in every body.
abbrev always_first : Parsers
always_first = record parsers { first_param = λ t. some (some (text "1024")) }

from_body_params-decimal_example : from_body_params always_first (text "first=1024") ≡ some 1024
unfolding decimal
from_body_params-decimal_example =
    from_body_params-decimal always_first (text "first=1024") 1024 refl refl (omega arith)

get_status-Reported_example :
    (resp : Response) × (w' : World) × (get_status json parsers service (text "s") 9 two_files
      ≡ (ok resp, w'))
    × Reported json parsers service quiet
        (text "s")
        9
        two_files
        (find_in (text "s") two_files.tables)
        (resp, w')
get_status-Reported_example =
    get_status-Reported json parsers service quiet (text "s") 9 two_files two_files-IsValid
      two_files-IsOwned
      (subst IsReportable (sym found_two) ((λ e. ground arith), two_found-DistinctPhysical))
