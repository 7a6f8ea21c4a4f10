-- ===== src/Tests.antt =====
-- A small service, its storage and its tables, for the runs that the children check.
mod Paths
mod Stored
mod Calls
mod Answers
mod Documents
mod Lives
mod Attributes
mod Logs
mod Serving
mod Promises
use storm_tape.Prelude.{
  ℕ, ◌≡◌, ◌≢◌, refl, Bool, true, false, Option, none, some, List, [], ◌∷◌, arith, Text,
}
use storm_tape.Model.{
  LogicalPath, PhysicalPath, Locality, State, submitted, started, FileType, File, new_file,
  StageRequest, StorageArea, Configuration, FileSizeInfo,
}
use storm_tape.Path.{text, is_absolute}
use storm_tape.Host.{Kernel, SysCall, ret, errno, FileStatus}
use storm_tape.Storage.{Storage, Answer, value}
use storm_tape.Database.Session.{Engine, World, Tables, StageEntity, FileEntity}
use storm_tape.Database.Runs.{IsQuiet}
use storm_tape.Service.{TapeService}
use storm_tape.Resolver.Resolve.{IsValidAreas}

abbrev pub areas : List StorageArea
areas =
    record { name = text "atlas"; root = text "/mnt/atlas"; access_points = text "/a" ∷ [] }
    ∷ record { name = text "cms"; root = text "/mnt/cms"; access_points = text "/a/c" ∷ [] }
    ∷ []

abbrev pub kernel : Kernel
kernel = record {
  getxattr = λ calls p name. errno 61;
  status = λ p. record { type = FileType.regular; error = false };
  stat = λ p. ret (record { size = 2048; blocks = 1 });
}

abbrev pub on_tape : Storage
on_tape = record {
  is_in_progress = λ p. value false;
  file_size_info = λ p. value (record { size = 5; is_stub = true });
  is_on_tape = λ p. value true;
}

abbrev pub engine : Engine
engine = record { fails = λ n. false; row_order = λ ps. ps; empty_fetch_throws = false }

abbrev pub quiet : IsQuiet engine
quiet n = refl

abbrev pub service : TapeService
service = record {
  config = record {
    hostname = text "localhost";
    port = 8080;
    storage_areas = areas;
    log_level = 1;
    mirror_mode = false;
  };
  db = engine;
  storage = λ calls. on_tape;
  kernel = kernel;
}

pub areas-IsValid : IsValidAreas areas
unfolding is_absolute
areas-IsValid = record {
  some_area = λ e. ground arith;
  has_points = ((λ e. ground arith), ((λ e. ground arith), tt));
  absolute = ((refl, tt), ((refl, tt), tt));
}

abbrev pub world : List StageEntity → List FileEntity → World
world stages files = record {
  tables = record { stages = stages; files = files };
  issued = 0;
  set_calls = [];
}

abbrev pub no_rows : World
no_rows = world [] []

abbrev pub entity : StageEntity
entity = record { id = text "s"; created_at = 1; started_at = 0; completed_at = 0 }

abbrev pub row : Text → Text → State → FileEntity
row logical physical state = record {
  stage_id = text "s";
  logical_path = logical;
  physical_path = physical;
  state = state;
  started_at = 0;
  finished_at = 0;
}

-- A stage with two files, the one whose path has a `-` first.
abbrev pub two_files : World
two_files =
    world (entity ∷ []) (
      row (text "/a-b") (text "/mnt/1") submitted
      ∷ row (text "/a/b") (text "/mnt/2") submitted
      ∷ [])

abbrev pub a_file : LogicalPath → PhysicalPath → File
a_file logical physical = record {
  logical_path = logical;
  physical_path = physical;
  state = submitted;
  locality = Locality.unavailable;
  started_at = 0;
  finished_at = 0;
}

abbrev pub two_found : StageRequest
two_found = record {
  files = a_file (text "/a-b") (text "/mnt/1") ∷ a_file (text "/a/b") (text "/mnt/2") ∷ [];
  created_at = 1;
  started_at = 0;
  completed_at = 0;
}

abbrev pub request : StageRequest
request = record {
  files = new_file (text "/a/x") ∷ [];
  created_at = 1;
  started_at = 0;
  completed_at = 0;
}
