-- ===== src/Tests/Logs.antt =====
-- A line of the access log.
use storm_tape.Prelude.{◌+◌, ◌≤◌, ◌≡◌, refl, false, [], ◌∷◌, arith, length, text_dec}
use storm_tape.Path.{text}
use storm_tape.Model.{new_file}
use storm_tape.Config.{pos}
use storm_tape.Http.{quoted_by}
use storm_tape.AccessLog.{
  Context, acceptable_request_id, line_start, after_handle, max_line_length, files,
}
use storm_tape.AccessLog.Length.{after_handle-length}

abbrev staged : Context
staged = record {
  operation = text "STAGE";
  stage_id = text "s";
  files = new_file (text "/a") ∷ new_file (text "/b") ∷ [];
}

-- A request id with an X in it is not logged.
not_acceptable : acceptable_request_id (text "X1") ≡ false
unfolding acceptable_request_id
not_acceptable = refl

the_line :
    after_handle (text "now") (text "r1") (text "me") [] 201 staged
    ≡ text "now r1 me STAGE 201 s [\"/a\",\"/b\"]"
unfolding after_handle line_start files quoted_by acceptable_request_id text_dec
the_line = refl

cut : files (staged.files) (pos 11) ≡ text "[\"/a\",...]"
unfolding files quoted_by text_dec
cut = refl

staged-short :
    length (line_start (text "now") (text "r1") (text "me") [] 201 staged) + 7 ≤ max_line_length
unfolding line_start acceptable_request_id text_dec
staged-short = omega arith

after_handle-length_example :
    length (after_handle (text "now") (text "r1") (text "me") [] 201 staged) + 1
    ≤ max_line_length + length staged.files
after_handle-length_example =
    after_handle-length (text "now") (text "r1") (text "me") [] 201 staged staged-short
