-- ===== src/Service/Files.antt =====
-- tape_service.cpp, what the handlers do with each file: the order and the equality of files, the
-- resolution of paths in `stage`, and the switch of `status`.
use storm_tape.Prelude.{
  Bool, true, ◌&&◌, ◌||◌, not, Option, none, some, List, [], ◌∷◌, ◌++◌, map, if◌then◌else◌,
}
use storm_tape.Model.{
  TimePoint, LogicalPath, PhysicalPath, State, submitted, started, failed, completed, File,
  StorageArea, is_regular_file,
}
use storm_tape.Path.{path_lt, path_eq}
use storm_tape.Resolver.{resolve}
use storm_tape.Host.{Kernel}
use storm_tape.Storage.{Storage, fresh, has_error, is_in_progress, is_stub}

abbrev pub by_path : File → File → Bool
by_path f g = path_lt f.logical_path g.logical_path

abbrev pub same_path : File → File → Bool
same_path f g = path_eq f.logical_path g.logical_path

abbrev pub logical_paths : List File → List LogicalPath
logical_paths = map (λ f. f.logical_path)

-- The path of a file whose physical path is not a regular file, and time of the failure.
abbrev pub check_file : Kernel → TimePoint → File → PhysicalPath → File
check_file K now f path =
    let status = K.status path in
    if status.error || not (is_regular_file status.type)
    then record f { physical_path = path; state = failed; started_at = now; finished_at = now }
    else record f { physical_path = path }

unfoldable pub resolve_one :
    Kernel → TimePoint → File → Option PhysicalPath → Option (List File) → Option (List File)
resolve_one K now f none rest = none
resolve_one K now f (some path) none = none
resolve_one K now f (some path) (some rest) = some (check_file K now f path ∷ rest)

-- The loop of `stage` over the files. The clock is read for each file that fails.
unfoldable pub resolve_files :
    Kernel → List StorageArea → (LogicalPath → TimePoint) → List File → Option (List File)
unfolding resolve_one
resolve_files K sas clock [] = some []
resolve_files K sas clock (f ∷ fs) =
    resolve_one K (clock f.logical_path) f (resolve sas f.logical_path)
      (resolve_files K sas clock fs)

-- What `status` makes of a file: the file, and the change of state to store.
abbrev pub Refreshed : Type 0
Refreshed = File × Option State

module _ (S : Storage) (now : TimePoint) where
  unfoldable pub refresh_started : File → Refreshed
  unfolding is_in_progress is_stub
  refresh_started f =
      let (running, s1) = is_in_progress S f.physical_path fresh in
      let (stub, _) = is_stub S f.physical_path s1 in
      let state = if stub then failed else completed in
      if running then (f, none) else (record f { state = state; finished_at = now }, some state)

  unfoldable pub refresh_submitted : File → Refreshed
  unfolding is_in_progress is_stub
  refresh_submitted f =
      let (running, s1) = is_in_progress S f.physical_path fresh in
      let (stub, s2) = is_stub S f.physical_path s1 in
      if running
      then (record f { state = started; started_at = now }, some started)
      else if not (has_error s1) && not stub
      then (record f { state = completed; started_at = now; finished_at = now }, some completed)
      else if (if has_error s1 then true else has_error s2)
      then (record f { state = failed; started_at = now; finished_at = now }, some failed)
      else (f, none)

  unfoldable pub refresh_by : State → File → Refreshed
  unfolding refresh_started refresh_submitted
  refresh_by started f = refresh_started f
  refresh_by submitted f = refresh_submitted f
  refresh_by _ f = (f, none)

  -- The `switch` of `status`.
  unfoldable pub refresh : File → Refreshed
  unfolding refresh_by
  refresh f = refresh_by f.state f

  unfoldable pub changes_of : Refreshed → List (PhysicalPath × State)
  changes_of (f, none) = []
  changes_of (f, some state) = (f.physical_path, state) ∷ []

  -- files_to_update
  unfoldable pub changes : List File → List (PhysicalPath × State)
  unfolding changes_of
  changes [] = []
  changes (f ∷ fs) = changes_of (refresh f) ++ changes fs

  unfoldable pub refresh_all : List File → List File
  refresh_all = map (λ f. (refresh f).0)
