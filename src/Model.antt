-- ===== src/Model.antt =====
-- types.hpp, file.hpp, stage_request.hpp, configuration.hpp and the request and response structs.
-- A time point is a number: the program only reads the clock, compares and stores.
use storm_tape.Prelude.{ℕ, Bool, true, false, List, [], Text}

abbrev pub TimePoint : Type 0
TimePoint = ℕ

abbrev pub StageId : Type 0
StageId = Text

-- A path is the text that std::filesystem::path stores; how paths compare is in Path.
abbrev pub LogicalPath : Type 0
LogicalPath = Text

abbrev pub PhysicalPath : Type 0
PhysicalPath = Text

pub data Locality : Type 0 where
  unavailable disk tape disk_and_tape lost none : Locality

-- File::State
pub data State : Type 0 where
  submitted started cancelled failed completed : State

abbrev pub to_underlying : State → ℕ
to_underlying submitted = 0
to_underlying started = 1
to_underlying cancelled = 2
to_underlying failed = 3
to_underlying completed = 4

abbrev pub is_final : State → Bool
is_final submitted = false
is_final started = false
is_final _ = true

pub record FileSizeInfo : Type 0 where
  pub size : ℕ
  pub is_stub : Bool

pub record File : Type 0 where
  pub logical_path : LogicalPath
  pub physical_path : PhysicalPath
  pub state : State
  pub locality : Locality
  pub started_at : TimePoint
  pub finished_at : TimePoint

-- `File{path}`: the other members keep their initializers.
abbrev pub new_file : LogicalPath → File
new_file path = record {
  logical_path = path;
  physical_path = [];
  state = submitted;
  locality = unavailable;
  started_at = 0;
  finished_at = 0;
}

pub record StageRequest : Type 0 where
  pub files : List File
  pub created_at : TimePoint
  pub started_at : TimePoint
  pub completed_at : TimePoint

-- fs::file_type. fs::status gives `none` on an error that is not "no such file".
pub data FileType : Type 0 where
  none not_found regular directory symlink block character fifo socket unknown : FileType

-- fs::exists
abbrev pub exists : FileType → Bool
exists none = false
exists not_found = false
exists _ = true

abbrev pub is_regular_file : FileType → Bool
is_regular_file regular = true
is_regular_file _ = false

abbrev pub is_directory : FileType → Bool
is_directory directory = true
is_directory _ = false

pub record StorageArea : Type 0 where
  pub name : Text
  pub root : PhysicalPath
  pub access_points : List LogicalPath

pub record Configuration : Type 0 where
  pub hostname : Text
  pub port : ℕ
  pub storage_areas : List StorageArea
  pub log_level : ℕ
  pub mirror_mode : Bool
