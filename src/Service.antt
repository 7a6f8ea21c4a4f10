-- ===== src/Service.antt =====
-- tape_service.cpp: the handlers of TapeService. The values of std::time and of the UUID generator are
-- arguments, a handler's time being read once; the storage and the file system answer as they do at
-- the time of the request.
pub mod Files
pub mod Recall
pub mod Groups
pub mod TakeOver
pub mod Recalling
pub mod Submit
pub mod Remove
pub mod Archive
pub mod Cancel
pub mod Refresh
pub mod Progress
pub mod Settled
pub mod Completion
pub mod Invariant
pub mod Calls
pub mod Life
pub mod Waiting
pub mod Draining
pub mod Changes
pub mod Persisting
pub mod Kept
pub mod Delivery
pub mod Shared
use storm_tape.Prelude.{
  ℕ, Bool, true, false, ◌&&◌, ◌||◌, not, Option, none, some, List, [], ◌∷◌, ◌++◌, map, Text, ◌==◌,
  eqb, ltb, if◌then◌else◌, text_dec,
}
use storm_tape.Model.{
  TimePoint, StageId, LogicalPath, PhysicalPath, Locality, State, submitted, started, cancelled,
  failed, completed, to_underlying, File, StageRequest, StorageArea, Configuration, exists,
  is_regular_file, is_directory,
}
use storm_tape.Path.{text, path_lt, path_eq}
use storm_tape.Resolver.{resolve}
use storm_tape.Algorithm.{sort, unique, set_difference}
use storm_tape.Host.{Kernel, SetCalls}
use storm_tape.Storage.{
  Storage, ExtendedFileStatus, fresh, has_error, is_in_progress, is_stub, locality,
}
use storm_tape.Stage.{by_state, update_timestamps}
use Files.{by_path, same_path, logical_paths, resolve_files, changes, refresh_all}
use storm_tape.Database
use storm_tape.Database.{StageUpdate}
use storm_tape.Database.Session.{
  Engine, StageEntity, Db, ok, stage_not_found, undefined, pure, raise, ◌>>=◌, ◌>>◌,
}

pub record StageResponse : Type 0 where
  pub id : StageId
  pub files : List File

pub record StatusResponse : Type 0 where
  pub id : StageId
  pub stage : StageRequest

-- CancelResponse and ReleaseResponse
pub record PathsResponse : Type 0 where
  pub id : StageId
  pub invalid : List LogicalPath

-- The variant of PathInfo.
pub data Info : Type 0 where
  located : Locality → Info
  message : Text → Info

pub record PathInfo : Type 0 where
  pub path : LogicalPath
  pub info : Info

-- The members of TapeService, with the kernel that it calls past the storage.
pub record TapeService : Type 0 where
  pub config : Configuration
  pub db : Engine
  pub storage : SetCalls → Storage
  pub kernel : Kernel

module _ (T : TapeService) where
  -- StageResponse{}
  unfoldable pub stage_response : StageId → List File → Bool → StageResponse
  stage_response id files true = record { id = id; files = files }
  stage_response id files false = record { id = []; files = [] }

  unfoldable pub insert_resolved : StageId → StageRequest → Option (List File) → Db StageResponse
  unfolding stage_response
  insert_resolved id request none = raise undefined
  insert_resolved id request (some files) = do
    inserted ← Database.insert T.db id (record request { files = files })
    pure (stage_response id files inserted)

  -- TapeService::stage
  unfoldable pub stage : StageId → (LogicalPath → TimePoint) → StageRequest → Db StageResponse
  unfolding insert_resolved resolve_files
  stage id clock request = insert_resolved id request (
      resolve_files T.kernel T.config.storage_areas clock
        (unique same_path (sort by_path request.files)))

  -- The storage as it is now.
  unfoldable pub storage_now : Db Storage
  storage_now w = (ok (T.storage w.set_calls), w)

  abbrev pub entity_of : StageId → StageRequest → StageEntity
  entity_of id r = record {
    id = id;
    created_at = r.created_at;
    started_at = r.started_at;
    completed_at = r.completed_at;
  }

  abbrev pub stage_update :
      StageId → StageRequest → Bool → List (PhysicalPath × State) → TimePoint → StageUpdate
  stage_update id r updated files now = record {
    stage = if updated then some (entity_of id r) else none;
    files = files;
    tp = now;
  }

  unfoldable pub store_status :
      StageId
      → TimePoint
      → List (PhysicalPath × State)
      → Option (StageRequest × Bool)
      → Db StatusResponse
  store_status id now files none = raise undefined
  store_status id now files (some (r, updated)) = do
    Database.update_stage T.db (stage_update id r updated files now)
    pure (record { id = id; stage = r })

  unfoldable pub status_of : StageId → TimePoint → Option StageRequest → Db StatusResponse
  unfolding store_status storage_now refresh_all changes
  status_of id now none = raise (stage_not_found id)
  status_of id now (some r) = do
    S ← storage_now
    store_status id now (changes S now r.files)
        (update_timestamps (record r { files = sort by_state (refresh_all S now r.files) }))

  -- TapeService::status
  unfoldable pub status : StageId → TimePoint → Db StatusResponse
  unfolding status_of
  status id now = do maybe_stage ← Database.find T.db id; status_of id now maybe_stage

  unfoldable pub cancel_of :
      StageId → List LogicalPath → TimePoint → List LogicalPath → Db PathsResponse
  cancel_of id paths now [] = do
    Database.update_all_logical T.db id paths cancelled now
    pure (record { id = id; invalid = [] })
  cancel_of id paths now (p ∷ invalid) = pure (record { id = id; invalid = p ∷ invalid })

  unfoldable pub cancel_found :
      StageId → List LogicalPath → TimePoint → Option StageRequest → Db PathsResponse
  unfolding cancel_of
  cancel_found id paths now none = raise (stage_not_found id)
  cancel_found id paths now (some r) =
      let sorted = sort path_lt paths in
      cancel_of id sorted now (set_difference path_lt sorted (logical_paths r.files))

  -- TapeService::cancel
  unfoldable pub cancel : StageId → List LogicalPath → TimePoint → Db PathsResponse
  unfolding cancel_found
  cancel id paths now = do stage ← Database.find T.db id; cancel_found id paths now stage

  -- TapeService::erase
  unfoldable pub erase : StageId → Db Unit
  erase id = do
    erased ← Database.erase T.db id
    if erased then pure tt else raise (stage_not_found id)

  unfoldable pub release_found : StageId → List LogicalPath → Option StageRequest → Db PathsResponse
  release_found id paths none = raise (stage_not_found id)
  release_found id paths (some r) = pure (record {
    id = id;
    invalid = set_difference path_lt (sort path_lt paths) (logical_paths r.files);
  })

  -- TapeService::release
  unfoldable pub release : StageId → List LogicalPath → Db PathsResponse
  unfolding release_found
  release id paths = do stage ← Database.find T.db id; release_found id paths stage

  -- override_locality
  unfoldable pub override_locality : Locality → Locality
  override_locality Locality.lost = Locality.unavailable
  override_locality l = l

  unfoldable pub info_at : Storage → PhysicalPath → Info
  unfolding override_locality
  info_at S path =
      let status = T.kernel.status path in
      if not (exists status.type)
      then message (text "No such file or directory")
      else if status.error
      then located Locality.unavailable
      else if is_directory status.type
      then message (text "Is a directory")
      else if not (is_regular_file status.type)
      then message (text "Not a regular file")
      else located (override_locality (locality S path fresh))

  unfoldable pub info_of :
      Storage → LogicalPath → Option PhysicalPath → Option (List PathInfo) → Option (List PathInfo)
  unfolding info_at
  info_of S path none rest = none
  info_of S path (some p) none = none
  info_of S path (some p) (some rest) = some (record { path = path; info = info_at S p } ∷ rest)

  unfoldable pub infos : Storage → List LogicalPath → Option (List PathInfo)
  unfolding info_of
  infos S [] = some []
  infos S (path ∷ paths) = info_of S path (resolve T.config.storage_areas path) (infos S paths)

  unfoldable pub or_undefined : {A : Type 0} → Option A → Db A
  or_undefined none = raise undefined
  or_undefined (some a) = pure a

  -- TapeService::archive_info
  unfoldable pub archive_info : List LogicalPath → Db (List PathInfo)
  unfolding storage_now or_undefined infos
  archive_info paths = do S ← storage_now; or_undefined (infos S paths)

  -- TapeService::ready_take_over
  unfoldable pub ready_take_over : Db ℕ
  ready_take_over = Database.count_files T.db submitted
