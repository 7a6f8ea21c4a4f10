-- ===== src/Service/Invariant.antt =====
-- Through any calls of the service the tables keep what its statements allow for, whatever statements
-- fail on the way.
use storm_tape.Prelude.{
  ℕ, ◌<◌, ◌≡◌, inl, inr, refl, Bool, true, false, Option, none, some, List, [], ◌∷◌, ◌++◌, All,
  if◌then◌else◌, not, ◌||◌,
}
use storm_tape.Model.{
  TimePoint, StageId, LogicalPath, PhysicalPath, State, started, completed, File, StageRequest,
  StorageArea, submitted, failed, is_regular_file,
}
use storm_tape.Algorithm.Sorting.{All-sort, All-unique}
use storm_tape.Resolver.{resolve}
use storm_tape.Host.{Kernel}
use storm_tape.Database.Session.{Tables, undefined, stage_not_found}
use storm_tape.Database.Keeps.{Keeps, keeps_rules, Keeps-bind, Keeps-pure, Keeps-raise, Keeps-if}
use storm_tape.Database.Closed.{Closed}
use storm_tape.Database.Invariant.{
  find-Keeps, update_all_logical-Keeps, update_all_physical-Keeps, update_stage-Keeps,
  count_files-Keeps, get_files-Keeps, find_incomplete_stages-Keeps,
}
use storm_tape.Database.Storing.{IsFirstFile, insert-Keeps, erase-Keeps}
use storm_tape.Service.Files.{check_file, resolve_one, resolve_files, by_path, same_path}
use storm_tape.Service.{
  TapeService, stage, insert_resolved, status, status_of, store_status, storage_now, cancel,
  cancel_found, cancel_of, erase, release, release_found, archive_info, or_undefined,
  ready_take_over,
}
use storm_tape.Service.Recall.{
  take_over, Selection, selection_now, store_selection, create_xattrs, get_paths_in_progress,
  gather, in_progress_all, in_progress,
}

abbrev AllFirst : Option (List File) → Type 0
AllFirst none = Unit
AllFirst (some fs) = All IsFirstFile fs

-- The files of a request are as from_json makes them.
abbrev pub IsNew : File → Type 0
IsNew f = (f.state ≡ submitted) × (f.started_at ≡ 0) × (f.finished_at ≡ 0)

check_file-IsFirst :
    (K : Kernel) (now : TimePoint) (f : File) (p : PhysicalPath)
    → 0 < now
    → IsNew f
    → IsFirstFile (check_file K now f p)
check_file-IsFirst K now f p h e =
    go ((K.status p).error || not (is_regular_file (K.status p).type))
  where
    go :
        (b : Bool)
        → IsFirstFile (
            if b
            then record f { physical_path = p; state = failed; started_at = now; finished_at = now }
            else record f { physical_path = p })
    go true = ((h, h), inr refl)
    go false = (rw e.0 (e.1, e.2), inl e.0)

resolve_files-IsFirst :
    (K : Kernel) (sas : List StorageArea) (clock : LogicalPath → TimePoint) (fs : List File)
    → ((p : LogicalPath) → 0 < clock p)
    → All IsNew fs
    → AllFirst (resolve_files K sas clock fs)
unfolding resolve_files
resolve_files-IsFirst K sas clock [] h a = tt
resolve_files-IsFirst K sas clock (f ∷ fs) h a =
    go (resolve sas f.logical_path) (resolve_files K sas clock fs)
      (resolve_files-IsFirst K sas clock fs h a.1)
  where
    go :
        (o : Option PhysicalPath) (rest : Option (List File))
        → AllFirst rest
        → AllFirst (resolve_one K (clock f.logical_path) f o rest)
    go none rest r = tt
    go (some p) none r = tt
    go (some p) (some rest) r =
        (check_file-IsFirst K (clock f.logical_path) f p (h f.logical_path) a.0, r)

module _ {P : Tables → Type 0} (c : Closed P) (T : TapeService) where
  insert_resolved-Keeps :
      (id : StageId) (r : StageRequest) (o : Option (List File))
      → AllFirst o
      → Keeps P (insert_resolved T id r o)
  unfolding insert_resolved
  insert_resolved-Keeps id r none h = Keeps-raise undefined
  insert_resolved-Keeps id r (some fs) h =
      Keeps-bind _ _ (insert-Keeps c T.db id (record r { files = fs }) h) (λ b. Keeps-pure _)

  pub stage-Keeps :
      (id : StageId) (clock : LogicalPath → TimePoint) (r : StageRequest)
      → ((p : LogicalPath) → 0 < clock p)
      → All IsNew r.files
      → Keeps P (stage T id clock r)
  unfolding stage
  stage-Keeps id clock r h a = insert_resolved-Keeps id r _ (
      resolve_files-IsFirst T.kernel T.config.storage_areas clock _ h
        (All-unique IsNew same_path _ (All-sort IsNew by_path r.files a)))

  storage_now-Keeps : Keeps P (storage_now T)
  unfolding storage_now
  storage_now-Keeps = record { at = λ w h. h }

  store_status-Keeps :
      (id : StageId) (now : TimePoint) (cs : List (PhysicalPath × State))
      (o : Option (StageRequest × Bool))
      → 0 < now
      → Keeps P (store_status T id now cs o)
  unfolding store_status
  store_status-Keeps id now cs none h = Keeps-raise undefined
  store_status-Keeps id now cs (some (r, updated)) h =
      Keeps-bind _ _ (update_stage-Keeps c T.db _ h) (λ b. Keeps-pure _)

  status_of-Keeps :
      (id : StageId) (now : TimePoint) (o : Option StageRequest)
      → 0 < now
      → Keeps P (status_of T id now o)
  unfolding status_of
  status_of-Keeps id now none h = Keeps-raise (stage_not_found id)
  status_of-Keeps id now (some r) h =
      Keeps-bind _ _ storage_now-Keeps (λ S. store_status-Keeps id now _ _ h)

  pub status-Keeps : (id : StageId) (now : TimePoint) → 0 < now → Keeps P (status T id now)
  unfolding status
  status-Keeps id now h = Keeps-bind _ _ (find-Keeps c T.db id) (λ o. status_of-Keeps id now o h)

  cancel_of-Keeps :
      (id : StageId) (ps : List LogicalPath) (now : TimePoint) (invalid : List LogicalPath)
      → 0 < now
      → Keeps P (cancel_of T id ps now invalid)
  unfolding cancel_of
  cancel_of-Keeps id ps now [] h =
      Keeps-bind _ _ (update_all_logical-Keeps c T.db id ps now h) (λ b. Keeps-pure _)
  cancel_of-Keeps id ps now (p ∷ invalid) h = Keeps-pure _

  cancel_found-Keeps :
      (id : StageId) (ps : List LogicalPath) (now : TimePoint) (o : Option StageRequest)
      → 0 < now
      → Keeps P (cancel_found T id ps now o)
  unfolding cancel_found
  cancel_found-Keeps id ps now none h = Keeps-raise (stage_not_found id)
  cancel_found-Keeps id ps now (some r) h = cancel_of-Keeps id _ now _ h

  pub cancel-Keeps :
      (id : StageId) (ps : List LogicalPath) (now : TimePoint)
      → 0 < now
      → Keeps P (cancel T id ps now)
  unfolding cancel
  cancel-Keeps id ps now h =
      Keeps-bind _ _ (find-Keeps c T.db id) (λ o. cancel_found-Keeps id ps now o h)

  pub erase_stage-Keeps : (id : StageId) → Keeps P (erase T id)
  unfolding erase
  erase_stage-Keeps id = search (keeps_rules, erase-Keeps c T.db)

  release_found-Keeps :
      (id : StageId) (ps : List LogicalPath) (o : Option StageRequest)
      → Keeps P (release_found T id ps o)
  unfolding release_found
  release_found-Keeps id ps none = Keeps-raise (stage_not_found id)
  release_found-Keeps id ps (some r) = Keeps-pure _

  pub release-Keeps : (id : StageId) (ps : List LogicalPath) → Keeps P (release T id ps)
  unfolding release
  release-Keeps id ps = Keeps-bind _ _ (find-Keeps c T.db id) (λ o. release_found-Keeps id ps o)

  or_undefined-Keeps : {A : Type 0} (o : Option A) → Keeps P (or_undefined T o)
  unfolding or_undefined
  or_undefined-Keeps none = Keeps-raise undefined
  or_undefined-Keeps (some a) = Keeps-pure a

  pub archive_info-Keeps : (ps : List LogicalPath) → Keeps P (archive_info T ps)
  unfolding archive_info
  archive_info-Keeps ps = Keeps-bind _ _ storage_now-Keeps (λ S. or_undefined-Keeps _)

  pub ready_take_over-Keeps : Keeps P (ready_take_over T)
  unfolding ready_take_over
  ready_take_over-Keeps = count_files-Keeps c T.db submitted

  create_xattrs-Keeps : (ps : List PhysicalPath) → Keeps P (create_xattrs T ps)
  unfolding create_xattrs
  create_xattrs-Keeps ps = record { at = λ w h. h }

  selection_now-Keeps : (ps : List PhysicalPath) → Keeps P (selection_now T ps)
  unfolding selection_now
  selection_now-Keeps ps = record { at = λ w h. h }

  store_selection-Keeps :
      (g : Selection) (now : TimePoint) → 0 < now → Keeps P (store_selection T g now)
  unfolding store_selection
  store_selection-Keeps g now h =
      Keeps-bind _ _ (update_all_physical-Keeps c T.db g.in_progress started now h) λ _.
        Keeps-bind _ _ (update_all_physical-Keeps c T.db g.on_disk_now completed now h) λ _.
          Keeps-bind _ _ (update_all_physical-Keeps c T.db g.the_rest failed now h) λ _.
            Keeps-bind _ _ (Keeps-if _ _ _ (Keeps-pure tt) (create_xattrs-Keeps g.need_recall)) λ _.
              Keeps-bind _ _ (update_all_physical-Keeps c T.db g.need_recall started now h)
                λ _. Keeps-pure g.need_recall

  pub take_over-Keeps : (n : ℕ) (now : TimePoint) → 0 < now → Keeps P (take_over T n now)
  unfolding take_over
  take_over-Keeps n now h =
      Keeps-bind _ _ (get_files-Keeps c T.db submitted n)
        λ ps. Keeps-bind _ _ (selection_now-Keeps ps) λ g. store_selection-Keeps g now h

  gather-Keeps :
      (ids : List StageId) (clock : StageId → TimePoint) (acc : List PhysicalPath)
      → ((id : StageId) → 0 < clock id)
      → Keeps P (gather T ids clock acc)
  unfolding gather get_paths_in_progress
  gather-Keeps [] clock acc h = Keeps-pure acc
  gather-Keeps (id ∷ ids) clock acc h =
      Keeps-bind _ _ (Keeps-bind _ _ (status-Keeps id (clock id) (h id)) (λ st. Keeps-pure _))
        (λ ps. gather-Keeps ids clock (acc ++ ps) h)

  pub in_progress_all-Keeps :
      (clock : StageId → TimePoint)
      → ((id : StageId) → 0 < clock id)
      → Keeps P (in_progress_all T clock)
  unfolding in_progress_all
  in_progress_all-Keeps clock h =
      Keeps-bind _ _ (find_incomplete_stages-Keeps c T.db)
        λ ids. Keeps-bind _ _ (gather-Keeps ids clock [] h) λ ps. Keeps-pure _

  pub in_progress-Keeps : (n precise : ℕ) → Keeps P (in_progress T n precise)
  unfolding in_progress
  in_progress-Keeps n precise =
      Keeps-bind _ _ (get_files-Keeps c T.db started n)
        λ ps. Keeps-bind _ _ storage_now-Keeps λ S. Keeps-pure _
