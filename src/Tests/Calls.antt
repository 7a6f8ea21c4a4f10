-- ===== src/Tests/Calls.antt =====
-- Runs of the service.
use mathlib.Core.List.{Perm}
use mathlib.Core.List.Perm
use storm_tape.Prelude.{
  ◌≤◌, ◌≡◌, ◌≢◌, refl, true, false, none, some, List, [], ◌∷◌, arith, All, length, take, eqb,
  text_dec,
}
use storm_tape.Model.{StageRequest, File, submitted, LogicalPath, PhysicalPath, Locality, new_file}
use storm_tape.Path.{text, path_lt, path_eq, is_absolute, lexically_normal}
use storm_tape.Algorithm.Sorting.{IsSorted}
use storm_tape.Algorithm.Difference.{IsIncreasing}
use storm_tape.Database.Session.{World, ok, err, stage_not_found, undefined}
use storm_tape.Database.Sql.{has_stage, find_stage, paths_in, rows_of}
use storm_tape.Database.Rows.{IsValid}
use storm_tape.Database.Runs.{Runs, Throws}
use storm_tape.Database.Lookup.{find_in}
use storm_tape.Database.RoundTrip.{with_stage}
use storm_tape.Database.Erasing.{how_many, without, without_files}
use storm_tape.Service.{TapeService, stage, status, cancel, erase, archive_info, PathInfo, located}
use storm_tape.Service.Files.{by_path, logical_paths}
use storm_tape.Service.Recall.{take_over}
use storm_tape.Service.Calls.{stages, statuses, takes_over, erases, run, run-IsValid}
use storm_tape.Service.Submit.{AreResolved, distinct_files, stage-stores}
use storm_tape.Service.Refresh.{status-no_files}
use storm_tape.Service.Groups.{HasLeft, NeedsRecall}
use storm_tape.Service.TakeOver.{new_calls, take_over-takes}
use storm_tape.Service.Cancel.{answer, invalid_paths, cancel_unless, cancel-Runs, cancel-misordered}
use storm_tape.Service.Remove.{erase-Removes, erase-half_done}
use storm_tape.Service.Archive.{AreInfos, archive_info_answers}
use storm_tape.Tests.{
  service, quiet, areas, areas-IsValid, kernel, on_tape, no_rows, two_files, two_found, request,
  world, entity,
}
use storm_tape.Tests.Stored.{found_two}

run-IsValid_example :
    IsValid
      (run service
        (stages (text "s") (λ p. 4) request
          ∷ statuses (text "s") 5
          ∷ takes_over 1 6
          ∷ erases (text "s")
          ∷ [])
        no_rows).tables
run-IsValid_example =
    run-IsValid service
      (stages (text "s") (λ p. 4) request
        ∷ statuses (text "s") 5
        ∷ takes_over 1 6
        ∷ erases (text "s")
        ∷ [])
      no_rows
      (((λ p. omega arith), ((refl, refl, refl), tt)), (omega arith, (omega arith, (tt, tt))))
      (record { rows = tt; file_keys = tt; stage_keys = tt })

stage-stores_example :
    (files : List File) × Runs
      (stage service (text "s") (λ p. 4) request)
      no_rows
      (record { id = text "s"; files = files })
      (with_stage (text "s") (record request { files = files }) no_rows.tables)
    × AreResolved kernel areas (λ p. 4) (distinct_files request.files) files
    × IsIncreasing by_path (distinct_files request.files)
unfolding is_absolute path_eq lexically_normal has_stage
stage-stores_example =
    stage-stores service quiet (text "s") (λ p. 4) request no_rows areas-IsValid refl refl

abbrev no_files : World
no_files = world (entity ∷ []) []

found_none :
    find_in (text "s") no_files.tables
    ≡ some (record { files = []; created_at = 1; started_at = 0; completed_at = 0 })
unfolding find_stage rows_of text_dec
found_none = refl

status-no_files_example : Throws (status service (text "s") 9) no_files undefined
status-no_files_example =
    status-no_files service quiet (text "s") 9 no_files
      (record { files = []; created_at = 1; started_at = 0; completed_at = 0 }) found_none refl refl

take_over-takes_example :
    (need : List PhysicalPath) × (after : World) × (take_over service 1 9 two_files
      ≡ (ok need, after))
    × (length need ≤ 1)
    × All
        (NeedsRecall service two_files.set_calls
          (take 1 (service.db.row_order (paths_in submitted two_files.tables))))
        need
    × All
        (λ p. HasLeft p after.tables)
        (take 1 (service.db.row_order (paths_in submitted two_files.tables)))
    × (after.set_calls ≡ new_calls service quiet two_files.set_calls need)
take_over-takes_example = take_over-takes service quiet 1 9 two_files refl

cancel-Runs_example :
    Runs
      (cancel service (text "s") (text "/a/b" ∷ []) 9)
      two_files
      (answer (text "s") (invalid_paths (text "/a/b" ∷ []) two_found))
      (cancel_unless
        (invalid_paths (text "/a/b" ∷ []) two_found)
        (text "s")
        (text "/a/b" ∷ [])
        9
        two_files.tables)
cancel-Runs_example =
    cancel-Runs service quiet (text "s") (text "/a/b" ∷ []) 9 two_files two_found found_two

before : path_lt (text "/a/b") (text "/a-b") ≡ true
unfolding path_lt
before = refl

misordered : ¬ IsSorted path_lt (logical_paths two_found.files)
misordered s = ground (arith, s.0.0, before)

cancel-misordered_example :
    (p : LogicalPath) × (bad : List LogicalPath) × Runs
      (cancel service (text "s") (text "/a/b" ∷ text "/a-b" ∷ []) 9)
      two_files
      (answer (text "s") (p ∷ bad))
      two_files.tables
cancel-misordered_example =
    cancel-misordered service quiet (text "s") (text "/a/b" ∷ text "/a-b" ∷ []) 9 two_files
      two_found found_two (Perm.swap (text "/a-b") (text "/a/b") []) misordered

gone : find_in (text "t") two_files.tables ≡ none
unfolding find_stage text_dec
gone = refl

abbrev ordered : StageRequest
ordered = record two_found { files = new_file (text "/a/b") ∷ new_file (text "/a-b") ∷ [] }

there : eqb (how_many (text "s") two_files.tables) 0 ≡ false
unfolding text_dec
there = refl

erase-Removes_example :
    Runs (erase service (text "s")) two_files tt (without (text "s") two_files.tables)
    × (find_in (text "s") (without (text "s") two_files.tables) ≡ none)
erase-Removes_example = erase-Removes service quiet (text "s") two_files (λ e. ground arith) there

not_there : eqb (how_many (text "t") two_files.tables) 0 ≡ true
unfolding text_dec
not_there = refl

abbrev third_fails : TapeService
third_fails = record service {
  db = record { fails = λ n. eqb n 2; row_order = λ ps. ps; empty_fetch_throws = false };
}

erase-half_done_example :
    (after : World) × (erase third_fails (text "s") two_files
      ≡ (err (stage_not_found (text "s")), after))
    × (after.tables ≡ without_files (text "s") two_files.tables)
erase-half_done_example = erase-half_done third_fails (text "s") two_files there refl refl refl

archive_info_answers_example :
    (found : List PathInfo) × (archive_info service (text "/a/x" ∷ text "c/y" ∷ []) no_rows
      ≡ (ok found, no_rows))
    × AreInfos service on_tape (text "/a/x" ∷ text "c/y" ∷ []) found
    × All (λ i. i.info ≢ located Locality.lost) found
archive_info_answers_example =
    archive_info_answers service areas-IsValid (text "/a/x" ∷ text "c/y" ∷ []) no_rows
