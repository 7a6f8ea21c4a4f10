-- ===== src/Tests/Stored.antt =====
-- Runs of the operations on the database.

use storm_tape.Database.Rows.{IsValid}
use storm_tape.Database.Owned.{IsOwned}
use storm_tape.Database.Sql.{has_file}
use storm_tape.Service.Changes.{DistinctPhysical}
use storm_tape.Prelude.{
  ◌≡◌, refl, arith, ◌⊎◌, true, false, some, [], ◌∷◌, text_dec, eqb, ◌≤◌, All, length, take, List,
}
use storm_tape.Model.{started}
use storm_tape.Path.{text}
use storm_tape.Database.Session.{Engine, World, ok}
use storm_tape.Database.Sql.{find_stage, rows_of, has_stage}
use storm_tape.Database.Lookup.{find_in}
use storm_tape.Database.{insert, update_all_physical}
use storm_tape.Database.RoundTrip.{IsFresh, with_stage}
use storm_tape.Database.Faults.{insert_atomic, update_all_physical-silent, unfailed}
use storm_tape.Database.Updates.{move_all}
use storm_tape.Tests.{quiet, no_rows, two_files, two_found, request}
use storm_tape.Model.{PhysicalPath}
use storm_tape.Database.Sql.{paths_in}
use storm_tape.Database.Runs.{Runs}
use storm_tape.Service.Recall.{in_progress}
use storm_tape.Service.Progress.{IsAnswer, in_progress-answers}
use storm_tape.Tests.{service, world, entity, row}

pub found_two : find_in (text "s") two_files.tables ≡ some two_found
unfolding find_stage rows_of text_dec
found_two = refl

request-IsFresh : IsFresh (text "s") request no_rows.tables
unfolding has_stage
request-IsFresh = record { stage = refl; files = refl; paths = (tt, tt) }

-- The third statement fails.
abbrev broken : Engine
broken = record { fails = λ n. eqb n 2; row_order = λ ps. ps; empty_fetch_throws = false }

insert_atomic_example :
    ((insert broken (text "s") request no_rows).0 ≡ ok true)
      × ((insert broken (text "s") request no_rows).1.tables
          ≡ with_stage (text "s") request no_rows.tables)
    ⊎ ((insert broken (text "s") request no_rows).0 ≡ ok false)
      × ((insert broken (text "s") request no_rows).1.tables ≡ no_rows.tables)
insert_atomic_example = insert_atomic broken (text "s") request no_rows

abbrev second_fails : Engine
second_fails = record { fails = λ n. eqb n 1; row_order = λ ps. ps; empty_fetch_throws = false }

abbrev both : List PhysicalPath
both = text "/mnt/1" ∷ text "/mnt/2" ∷ []

update_all_physical-silent_example :
    (after : World) × (update_all_physical second_fails both started 7 two_files ≡ (ok true, after))
    × (after.tables ≡ move_all (unfailed second_fails 1 both) started 7 two_files.tables)
update_all_physical-silent_example =
    update_all_physical-silent second_fails both started 7 two_files (λ e. ground arith) refl refl

-- The first path is left alone, and the second one updated.
unfailed-both : unfailed second_fails 1 both ≡ text "/mnt/2" ∷ []
unfailed-both = refl

abbrev started_file : World
started_file = world (entity ∷ []) (row (text "/a/x") (text "/mnt/x") started ∷ [])

in_progress-answers_example :
    (ps : List PhysicalPath) × Runs (in_progress service 5 1) started_file ps started_file.tables
    × (length ps ≤ 5)
    × All
        (IsAnswer
          (service.storage started_file.set_calls)
          1
          (take 5 (service.db.row_order (paths_in started started_file.tables))))
        ps
in_progress-answers_example = in_progress-answers service quiet 5 1 started_file refl

pub two_files-IsValid : IsValid two_files.tables
unfolding has_file has_stage text_dec
two_files-IsValid = record {
  rows = ((refl, refl), ((refl, refl), tt));
  file_keys = (refl, (refl, tt));
  stage_keys = (refl, tt);
}

pub two_files-IsOwned : IsOwned two_files.tables
unfolding has_stage text_dec
two_files-IsOwned = (refl, (refl, tt))

pub two_found-DistinctPhysical : DistinctPhysical two_found.files
two_found-DistinctPhysical = (((λ e. ground arith), tt), (tt, tt))
