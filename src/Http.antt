-- ===== src/Http.antt =====
-- io.cpp, file.cpp and types.cpp: the HTTP responses. The serializer of boost::json is not part of the
-- repository: a JSON body is the rows that the program gives to it.
pub mod Requests
pub mod Contexts
pub mod Bodies
pub mod Normalised
pub mod Serving
pub mod Staging
pub mod Routes
pub mod Numbers
pub mod Messages
pub mod Parameters
pub mod Answers
pub mod Statuses
use storm_tape.Prelude.{
  ℕ, zero, suc, ◌+◌, ◌-◌, Bool, true, false, ◌||◌, Option, none, some, List, [], ◌∷◌, ◌++◌, map,
  Text, eqb, ltb, length, if◌then◌else◌,
}
use storm_tape.Model.{
  StageId, LogicalPath, PhysicalPath, Locality, State, submitted, started, cancelled, failed,
  completed, File,
}
use storm_tape.Path.{text, is_empty}
use storm_tape.Service.{
  StageResponse, StatusResponse, PathsResponse, PathInfo, Info, located, message,
}

-- to_string(File::State)
unfoldable pub state_text : State → Text
state_text submitted = text "SUBMITTED"
state_text started = text "STARTED"
state_text cancelled = text "CANCELLED"
state_text failed = text "FAILED"
state_text completed = text "COMPLETED"

-- to_string(Locality)
unfoldable pub locality_text : Locality → Text
locality_text Locality.disk = text "DISK"
locality_text Locality.tape = text "TAPE"
locality_text Locality.disk_and_tape = text "DISK_AND_TAPE"
locality_text Locality.lost = text "LOST"
locality_text Locality.none = text "NONE"
locality_text Locality.unavailable = text "UNAVAILABLE"

pub data Field : Type 0 where
  words : Text → Field
  number : ℕ → Field

-- A JSON object whose members are texts and numbers.
abbrev pub Row : Type 0
Row = List (Text × Field)

pub data Body : Type 0 where
  empty : Body
  txt : Text → Body
  json_object : Row → Body
  json_array : List Row → Body
  -- an object with one more member "files", an array
  json_files : Row → List Row → Body
  -- application/problem+json: the status and the title
  problem : ℕ → Text → Body

pub record Response : Type 0 where
  pub code : ℕ
  pub body : Body
  pub location : Option Text

pub record HostInfo : Type 0 where
  pub proto : Text
  pub host : Text
  pub port : Text

abbrev pub reply : ℕ → Body → Response
reply code body = record { code = code; body = body; location = none }

-- make_location
unfoldable pub make_location : HostInfo → StageId → Text
make_location info id =
    info.proto ++ text "://" ++ info.host ++ text ":" ++ info.port ++ text "/api/v1/stage/" ++ id

-- to_crow_response(StageResponse const&, HostInfo const&)
unfoldable pub stage_reply : StageResponse → HostInfo → Response
unfolding make_location
stage_reply resp info = if is_empty resp.id then reply 500 empty else record {
  code = 201;
  body = json_object ((text "requestId", words resp.id) ∷ []);
  location = some (make_location info resp.id);
}

-- path::c_str(), read up to its NUL.
unfoldable pub c_str : Text → Text
c_str [] = []
c_str (c ∷ cs) = let rest = c_str cs in if eqb c 0 then [] else c ∷ rest

-- to_crow_response(StatusResponse const&)
unfoldable pub status_reply : StatusResponse → Response
unfolding state_text c_str
status_reply resp = reply 200 (
    json_files
      ((text "id", words resp.id)
        ∷ (text "createdAt", number resp.stage.created_at)
        ∷ (text "startedAt", number resp.stage.started_at)
        ∷ (text "completedAt", number resp.stage.completed_at)
        ∷ [])
      (map
        (λ f.
          (text "path", words (c_str f.logical_path))
          ∷ (text "state", words (state_text f.state))
          ∷ [])
        resp.stage.files))

pub drop : {A : Type 0} → ℕ → List A → List A
drop zero xs = xs
drop (suc n) [] = []
drop (suc n) (x ∷ xs) = drop n xs

-- Writing to a stream that was made with a text: it begins at the start of the text.
unfoldable pub written_over : Text → Text → Text
unfolding drop
written_over old new = new ++ drop (length new) old

escaped : ℕ → Text → Text
escaped delim [] = []
escaped delim (c ∷ cs) =
    let rest = escaped delim cs in if eqb c delim || eqb c b'\\' then b'\\' ∷ c ∷ rest else c ∷ rest

-- std::quoted(s, delim)
unfoldable pub quoted_by : ℕ → Text → Text
unfolding escaped
quoted_by delim s = delim ∷ escaped delim s ++ delim ∷ []

abbrev pub quoted : Text → Text
quoted = quoted_by b'\''

-- sfile, the std::accumulate of file_missing_to_json
unfoldable pub missing_text : Text → List LogicalPath → Text
unfolding written_over quoted_by
missing_text acc [] = acc
missing_text acc (p ∷ ps) = missing_text (written_over acc (quoted p ++ text " ")) ps

-- file_missing_to_json
unfoldable pub file_missing_to_json : List LogicalPath → StageId → Row
unfolding missing_text
file_missing_to_json missing id =
    let many = ltb 1 (length missing) in
    (text "title", words (text "File missing from stage request"))
    ∷ (text "status", number 400)
    ∷ (
      text "detail",
      words (
          text "The file"
          ++ (if many then text "s " else text " ")
          ++ missing_text [] missing
          ++ (if many then text " do " else text " does ")
          ++ text "not belong to the STAGE request "
          ++ id
          ++ text ". No modification has been made to this request."),
    )
    ∷ []

-- to_crow_response of CancelResponse and of ReleaseResponse
unfoldable pub paths_reply : PathsResponse → Response
unfolding file_missing_to_json
paths_reply resp = reply 400 (json_object (file_missing_to_json resp.invalid resp.id))

-- PathInfoVisitor
unfoldable pub info_row : LogicalPath → Info → Row
unfolding locality_text
info_row path (located l) =
    (text "path", words path) ∷ (text "locality", words (locality_text l)) ∷ []
info_row path (message m) = (text "path", words path) ∷ (text "error", words m) ∷ []

-- to_crow_response(ArchiveInfoResponse const&)
unfoldable pub archive_reply : List PathInfo → Response
unfolding info_row
archive_reply infos = reply 200 (json_array (map (λ i. info_row i.path i.info) infos))

take_over_lines : Text → List PhysicalPath → Text
take_over_lines acc [] = acc
take_over_lines acc (p ∷ ps) = take_over_lines (acc ++ text "unused " ++ p ++ text "\n") ps

-- to_crow_response(TakeOverResponse const&)
unfoldable pub take_over_reply : List PhysicalPath → Response
unfolding take_over_lines
take_over_reply paths = reply 200 (txt (take_over_lines [] paths))

in_progress_lines : Text → List PhysicalPath → Text
in_progress_lines acc [] = acc
in_progress_lines acc (p ∷ ps) = in_progress_lines (acc ++ p ++ text "\n") ps

-- to_crow_response(InProgressResponse const&)
unfoldable pub in_progress_reply : List PhysicalPath → Response
unfolding in_progress_lines
in_progress_reply paths = reply 200 (txt (in_progress_lines [] paths))
