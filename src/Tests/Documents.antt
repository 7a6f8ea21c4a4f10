-- ===== src/Tests/Documents.antt =====
-- A run of the loader of the configuration.
use storm_tape.Prelude.{
  ℕ, ◌≤◌, ◌≡◌, refl, ap, ◌∙◌, true, false, none, some, [], ◌∷◌, All, Text, text_dec,
}
use storm_tape.Model.{PhysicalPath, FileType, Configuration}
use storm_tape.Path.{text, path_lt, path_eq, is_absolute, lexically_normal}
use storm_tape.Algorithm.{sort}
use storm_tape.Host.{FileStatus}
use storm_tape.Config.{
  Node, Document, pos, loaded, load_storage_area, load_storage_area_name, load_storage_area_root,
  load_storage_area_access_points,
}
use storm_tape.Config.Load.{Probe, load_configuration}
use storm_tape.Config.Bounds.{IsRoot}
use storm_tape.Storage.Local.{local_storage}
use storm_tape.Service.{TapeService}
use storm_tape.Start.{Surroundings, serves, main, configured}
use storm_tape.Start.Usable.{main-IsUsable}
use storm_tape.Tests.{engine, kernel}

abbrev same : ℕ → ℕ
same n = n

abbrev words_node : Text → Node
words_node t = record {
  is_defined = true;
  is_null = false;
  text = some t;
  text_or_empty = t;
  strings = [];
  integer = none;
  boolean = none;
}

abbrev absent_node : Node
absent_node = record {
  is_defined = false;
  is_null = false;
  text = none;
  text_or_empty = [];
  strings = [];
  integer = none;
  boolean = none;
}

abbrev document : Document
document = record {
  storage_areas = some (
      record {
        name = words_node (text "sa1");
        root = words_node (text "/mnt/sa1/");
        access_point = words_node (text "/sa1");
      }
      ∷ []);
  port = record (words_node (text "9000")) { integer = some (pos 9000) };
  log_level = absent_node;
  mirror_mode = absent_node;
}

abbrev directories : PhysicalPath → FileStatus
directories p = record { type = FileType.directory; error = false }

abbrev all_allowed : PhysicalPath → Probe
all_allowed p = record { creates = true; reads = true; create_error = none; has_error = none }

abbrev expected : Configuration
expected = record {
  hostname = text "localhost";
  port = 9000;
  storage_areas =
      record { name = text "sa1"; root = text "/mnt/sa1/"; access_points = text "/sa1" ∷ [] } ∷ [];
  log_level = 1;
  mirror_mode = false;
}

document_loaded : load_configuration same directories all_allowed document ≡ loaded expected
unfolding load_configuration sort path_lt path_eq is_absolute lexically_normal text_dec
    load_storage_area load_storage_area_name load_storage_area_root load_storage_area_access_points
document_loaded = refl

-- A machine on which every path is a directory, and every file is the document.
abbrev machine : Surroundings
machine = record {
  parse = λ arguments. some (record { help = false; config = none });
  document = λ file. some document;
  session = some engine;
  kernel = record kernel { status = directories };
  toupper = same;
  probe = all_allowed;
}

abbrev expected_service : TapeService
expected_service = record {
  config = expected;
  db = engine;
  storage = local_storage (record kernel { status = directories });
  kernel = record kernel { status = directories };
}

it_serves : main machine [] ≡ serves expected_service 1
unfolding main
it_serves = ap (configured machine) document_loaded ∙ refl

main-IsUsable_example :
    (expected_service.storage ≡ local_storage expected_service.kernel)
    × (expected_service.kernel ≡ machine.kernel)
    × (1 ≡ expected_service.config.log_level)
    × (1 ≤ expected_service.config.port)
    × (expected_service.config.port ≤ 65535)
    × (expected_service.config.log_level ≤ 4)
    × All (IsRoot machine.kernel.status machine.probe) expected_service.config.storage_areas
main-IsUsable_example = main-IsUsable machine [] expected_service 1 it_serves
