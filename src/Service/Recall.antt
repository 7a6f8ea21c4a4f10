-- ===== src/Service/Recall.antt =====
-- tape_service.cpp, the handlers for GEMSS: take_over and both in_progress.
use storm_tape.Prelude.{
  ℕ, Bool, true, false, ◌&&◌, Option, none, some, List, [], ◌∷◌, ◌++◌, map, eqb, ltb, keep,
  if◌then◌else◌,
}
use storm_tape.Model.{
  TimePoint, StageId, PhysicalPath, Locality, State, submitted, started, failed, completed,
  to_underlying, File,
}
use storm_tape.Path.{path_lt, path_eq}
use storm_tape.Algorithm.{sort, unique, partition}
use storm_tape.Host.{SetCalls, has_xattr, tsm_rect}
use storm_tape.Storage.{Storage, fresh, is_in_progress, locality}
use storm_tape.Database
use storm_tape.Database.Session.{Db, ok, pure, ◌>>=◌, ◌>>◌}
use storm_tape.Service.{TapeService, status, storage_now}

abbrev pub PathLocality : Type 0
PathLocality = PhysicalPath × Locality

-- The predicate of select_only_on_tape.
abbrev pub only_on_tape : PathLocality → Bool
only_on_tape (p, Locality.tape) = true
only_on_tape (p, Locality.lost) = true
only_on_tape (p, _) = false

-- The predicate of select_on_disk.
abbrev pub on_disk : PathLocality → Bool
on_disk (p, Locality.disk) = true
on_disk (p, Locality.disk_and_tape) = true
on_disk (p, _) = false

abbrev pub paths_of : List PathLocality → List PhysicalPath
paths_of = map (λ f. f.0)

-- extend_paths_with_localities
unfoldable pub with_localities : Storage → List PhysicalPath → List PathLocality
with_localities S [] = []
with_localities S (p ∷ ps) = (p, locality S p fresh) ∷ with_localities S ps

-- The four groups of take_over.
pub record Selection : Type 0 where
  pub in_progress : List PhysicalPath
  pub need_recall : List PhysicalPath
  pub on_disk_now : List PhysicalPath
  pub the_rest : List PhysicalPath

abbrev no_error : Option ℕ → Bool
no_error none = true
no_error (some e) = false

module _ (T : TapeService) where
  -- recall_in_progress
  unfoldable pub recall_in_progress : SetCalls → PhysicalPath → Bool
  unfolding has_xattr
  recall_in_progress calls path =
      let (ec, found) = has_xattr T.kernel calls path tsm_rect in no_error ec && found

  unfoldable pub select : SetCalls → List PathLocality → Selection
  unfolding recall_in_progress
  select calls path_locs =
      let (tape, not_tape) = partition only_on_tape path_locs in
      let (running, needed) = partition (λ f. recall_in_progress calls f.0) tape in
      let (disk, rest) = partition on_disk not_tape in
      record {
        in_progress = paths_of running;
        need_recall = paths_of needed;
        on_disk_now = paths_of disk;
        the_rest = paths_of rest;
      }

  -- create_xattr for each path: an error is only logged.
  unfoldable pub create_xattrs : List PhysicalPath → Db Unit
  create_xattrs paths w =
      (ok tt, record w { set_calls = w.set_calls ++ map (λ p. (p, tsm_rect)) paths })

  unfoldable pub selection_now : List PhysicalPath → Db Selection
  unfolding select with_localities
  selection_now paths w =
      (ok (select w.set_calls (with_localities (T.storage w.set_calls) paths)), w)

  unfoldable pub store_selection : Selection → TimePoint → Db (List PhysicalPath)
  unfolding create_xattrs
  store_selection g now = do
    Database.update_all_physical T.db g.in_progress started now
    Database.update_all_physical T.db g.on_disk_now completed now
    Database.update_all_physical T.db g.the_rest failed now
    if T.config.mirror_mode then pure tt else create_xattrs g.need_recall
    Database.update_all_physical T.db g.need_recall started now
    pure g.need_recall

  -- TapeService::take_over
  unfoldable pub take_over : ℕ → TimePoint → Db (List PhysicalPath)
  unfolding selection_now store_selection
  take_over n_files now = do
    physical_paths ← Database.get_files T.db submitted n_files
    g ← selection_now physical_paths
    store_selection g now

  drop_below : ℕ → List File → List File
  drop_below k [] = []
  drop_below k (f ∷ fs) = if ltb (to_underlying f.state) k then drop_below k fs else f ∷ fs

  take_not_above : ℕ → List File → List File
  take_not_above k [] = []
  take_not_above k (f ∷ fs) =
      let rest = take_not_above k fs in if ltb k (to_underlying f.state) then [] else f ∷ rest

  -- std::equal_range on the files, sorted by state.
  unfoldable pub with_state : State → List File → List File
  unfolding drop_below take_not_above
  with_state s files = take_not_above (to_underlying s) (drop_below (to_underlying s) files)

  -- get_paths_in_progress
  unfoldable pub get_paths_in_progress : StageId → TimePoint → Db (List PhysicalPath)
  unfolding with_state
  get_paths_in_progress id now = do
    st ← status T id now
    pure (
        if eqb st.stage.completed_at 0
        then map (λ f. f.physical_path) (with_state started st.stage.files)
        else [])

  -- Each status request reads the clock.
  unfoldable pub gather :
      List StageId → (StageId → TimePoint) → List PhysicalPath → Db (List PhysicalPath)
  unfolding get_paths_in_progress
  gather [] clock acc = pure acc
  gather (id ∷ ids) clock acc = do
    paths ← get_paths_in_progress id (clock id)
    gather ids clock (acc ++ paths)

  -- TapeService::in_progress()
  unfoldable pub in_progress_all : (StageId → TimePoint) → Db (List PhysicalPath)
  unfolding gather
  in_progress_all clock = do
    stage_ids ← Database.find_incomplete_stages T.db
    paths ← gather stage_ids clock []
    pure (unique path_eq (sort path_lt paths))

  -- TapeService::in_progress(InProgressRequest). `precise` is an int that is not negative.
  unfoldable pub in_progress : ℕ → ℕ → Db (List PhysicalPath)
  in_progress n_files precise = do
    physical_paths ← Database.get_files T.db started n_files
    S ← storage_now T
    pure (
        if ltb 0 precise
        then keep (λ p. (is_in_progress S p fresh).0) physical_paths
        else physical_paths)
