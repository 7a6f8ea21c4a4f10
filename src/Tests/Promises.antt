-- ===== src/Tests/Promises.antt =====
-- Runs of the database as its clients see it, of the calls that take files over, and of the profiler.
use mathlib.Core.List.Perm
use storm_tape.Prelude.{
  All, In, inl, inr, ◌≢◌, ◌==◌, ◌+◌, ◌*◌, ◌-◌, ◌≡◌, refl, true, false, none, some, List, [], ◌∷◌,
  ◌++◌, map, arith, length, text_dec,
}
use storm_tape.Model.{StageRequest, File, submitted, started, failed}
use storm_tape.Path.{text}
use storm_tape.Database.Runs.{Runs}
use storm_tape.Database.Lookup.{find_in}
use storm_tape.Database.Interface.{soci_database}
use storm_tape.Database.Abstract.{Op, insert, find, update_all_physical, erase, view, done, found}
use storm_tape.Database.Abstract.Refines.{Ends, promise_all, perform_all-Refines}
use storm_tape.Service.{TapeService, ready_take_over, status}
use storm_tape.Service.Calls.{run}
use storm_tape.Service.Draining.{IsOrder, waiting, all_take_over, requested, take_overs-drain}
use storm_tape.Profiler.{Ended, opened, closed, header, footer, event, stop_all}
use storm_tape.Profiler.Trace.{joined, quotes, results, trace-joined}
use storm_tape.Service.Shared.{status-fails_shared}
use storm_tape.Service.Delivery.{taken-completes}
use storm_tape.Service.Completion.{HasEnded}
use storm_tape.Storage.{value}
use storm_tape.Database.Session.{World, Tables, FileEntity, ok}
use storm_tape.Database.Sql.{incomplete, paths_in, finish, to_file, find_stage, rows_of}
use storm_tape.Tests.{
  world, entity, row, on_tape, engine, quiet, service, no_rows, two_files, two_found, request,
}
use storm_tape.Tests.Stored.{found_two, two_files-IsValid}

abbrev ops : List Op
ops =
    insert (text "s") request
    ∷ insert (text "s") request
    ∷ update_all_physical (text "" ∷ []) started 5
    ∷ find (text "s")
    ∷ erase (text "s")
    ∷ find (text "s")
    ∷ []

perform_all-Refines_example : Ends (soci_database engine) ops no_rows (view no_rows.tables)
perform_all-Refines_example = perform_all-Refines engine quiet ops no_rows tt

-- What is promised for them, beginning with no stage.
promised :
    (promise_all
      (insert (text "s") request
        ∷ insert (text "s") request
        ∷ erase (text "s")
        ∷ find (text "s")
        ∷ [])
      (λ k. none)).0
    ≡ done true ∷ done false ∷ done true ∷ found none ∷ []
unfolding promise_all text_dec
promised = refl

engine-IsOrder : IsOrder engine
engine-IsOrder ps = Perm.refl ps

take_overs-drain_example :
    Runs
      (ready_take_over service)
      (run service (all_take_over ((1, 9) ∷ (1, 10) ∷ [])) two_files)
      (waiting two_files.tables - requested ((1, 9) ∷ (1, 10) ∷ []))
      (run service (all_take_over ((1, 9) ∷ (1, 10) ∷ [])) two_files).tables
take_overs-drain_example =
    take_overs-drain service quiet engine-IsOrder ((1, 9) ∷ (1, 10) ∷ []) two_files
      (omega arith, (omega arith, tt))

-- An inner timer ends before the outer one.
abbrev timers : List Ended
timers =
    record {
      timer = record { name = text "a \"b\""; start_tp = 2000 };
      end_tp = 3000;
      thread_id = 1;
    }
    ∷ record {
      timer = record { name = text "main"; start_tp = 1000 };
      end_tp = 9000;
      thread_id = 1;
    }
    ∷ []

trace-joined_example :
    (closed (stop_all (λ n. n) timers opened)
      ≡ header ++ (joined (map event (results (λ n. n) timers)) ++ footer))
    × (quotes (closed (stop_all (λ n. n) timers opened)) ≡ 4 + 20 * length timers)
trace-joined_example = trace-joined (λ n. n) timers

-- The service when the recalls are over: both files are on disk.
abbrev later : TapeService
later = record service {
  storage = λ calls. record on_tape {
    file_size_info = λ p. value (record { size = 5; is_stub = false });
  };
}

taken-completes_example :
    (s : StageRequest) × (after : World) × (status later
        (text "s")
        20
        (run service (all_take_over ((1, 9) ∷ (1, 10) ∷ [])) two_files)
      ≡ (ok (record { id = text "s"; stage = s }), after))
    × All HasEnded s.files
    × (s.completed_at ≢ 0)
    × All (λ i. (i == text "s") ≡ false) (incomplete after.tables)
unfolding paths_in text_dec
taken-completes_example =
    taken-completes service later quiet quiet engine-IsOrder (text "s") ((1, 9) ∷ (1, 10) ∷ []) 20
      two_files two_found two_files-IsValid found_two (λ e. ground arith)
      ((omega arith, omega arith), ((omega arith, omega arith), tt)) (omega arith) (omega arith)
      ((λ m. refl), ((λ m. refl), tt))

-- Two stages with a file on one physical path: one has begun, and the other still waits.
abbrev begun_row : FileEntity
begun_row = record (row (text "/a/x") (text "/mnt/1") started) { started_at = 3 }

abbrev waiting_row : FileEntity
waiting_row = record (row (text "/a/x") (text "/mnt/1") submitted) { stage_id = text "u" }

abbrev two_stages : World
two_stages = world (entity ∷ record entity { id = text "u" } ∷ []) (begun_row ∷ waiting_row ∷ [])

abbrev begun_file : File
begun_file = to_file begun_row

begun_found :
    find_in (text "s") two_stages.tables
    ≡ some (record { files = begun_file ∷ []; created_at = 1; started_at = 0; completed_at = 0 })
unfolding find_stage rows_of text_dec
begun_found = refl

status-fails_shared_example :
    (s : StageRequest) × (t : Tables) × Runs
      (status service (text "s") 9)
      two_stages
      (record { id = text "s"; stage = s })
      t
    × In (finish failed 9 waiting_row) t.files
status-fails_shared_example =
    status-fails_shared service quiet (text "s") 9 two_stages
      (record { files = begun_file ∷ []; created_at = 1; started_at = 0; completed_at = 0 })
      begun_file (record { size = 5; is_stub = true }) waiting_row begun_found (inl refl) refl refl
      refl refl (inr (inl refl)) refl refl
