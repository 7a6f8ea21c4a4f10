-- ===== src/Database.antt =====
-- database.hpp, database_soci.cpp and sql_queries.hpp: the tables, the statements and the operations
-- of SociDatabase.
-- A statement is the function on the tables that its SQL text denotes. Soci and SQLite are not part
-- of the repository: which statements fail, the order of the rows of a SELECT with no ORDER BY, and
-- whether a fetch into an empty vector throws are parameters (Engine).
pub mod Session
pub mod Sql
pub mod Keeps
pub mod Rows
pub mod Gentle
pub mod Closed
pub mod Storing
pub mod Owned
pub mod Valid
pub mod Runs
pub mod Lookup
pub mod RoundTrip
pub mod Updates
pub mod Erasing
pub mod Faults
pub mod Invariant
pub mod Counting
pub mod Interface
pub mod Abstract
use storm_tape.Prelude.{
  ℕ, Bool, true, false, ◌&&◌, not, Option, none, some, List, [], ◌∷◌, map, ◌==◌, eqb, length, take,
  keep, if◌then◌else◌, text_dec,
}
use storm_tape.Model.{TimePoint, StageId, LogicalPath, PhysicalPath, State, File, StageRequest}
use Session.{
  Engine, StageEntity, FileEntity, Tables, Db, pure, execute, query, attempt, transaction, raise,
  soci_error, ◌>>=◌, ◌>>◌,
}
use Sql.{
  is_stage, incomplete, replace_stage, insert_stage, insert_file, update_where, update_files,
  is_row, logical_update, physical_update, find_stage, in_stage, rows_of, to_file, to_entity,
  paths_in,
}

-- What update(StageUpdate const&) is given.
pub record StageUpdate : Type 0 where
  pub stage : Option StageEntity
  pub files : List (PhysicalPath × State)
  pub tp : TimePoint

module _ (E : Engine) where
  insert_files : StageId → List File → Db Bool
  insert_files id [] = pure true
  insert_files id (f ∷ fs) = do execute E (insert_file (to_entity id f)); insert_files id fs

  -- The statements of insert, in its transaction.
  unfoldable pub insert_rows : StageId → StageRequest → Db Bool
  unfolding insert_files
  insert_rows id stage = do
    execute E (
        insert_stage (record {
          id = id;
          created_at = stage.created_at;
          started_at = stage.started_at;
          completed_at = stage.completed_at;
        }))
    insert_files id stage.files

  -- SociDatabase::insert
  unfoldable pub insert : StageId → StageRequest → Db Bool
  insert id stage = attempt (transaction E (insert_rows id stage))

  -- find_file_entities
  find_file_entities : StageId → Db (List FileEntity)
  find_file_entities id = do
    n_files ← query E (λ t. length (keep (in_stage id) t.files))
    if eqb n_files 0 then pure [] else query E (rows_of id)

  -- SociDatabase::find
  unfoldable pub find : StageId → Db (Option StageRequest)
  unfolding find_file_entities
  find id = do
    s_entity ← query E (λ t. find_stage id t.stages)
    if s_entity.id == id
        then (do
          f_entities ← find_file_entities id
          pure (
              some (record {
                files = map to_file f_entities;
                created_at = s_entity.created_at;
                started_at = s_entity.started_at;
                completed_at = s_entity.completed_at;
              })))
        else pure none

  -- SociDatabase::find_incomplete_stages
  unfoldable pub find_incomplete_stages : Db (List StageId)
  find_incomplete_stages = do
    n_stages ← query E (λ t. length (incomplete t))
    if eqb n_stages 0 then pure [] else query E (λ t. E.row_order (incomplete t))

  pub run_update : Option (FileEntity → FileEntity) → Db Bool
  run_update none = pure true
  run_update (some g) = do execute E (update_files g); pure true

  -- SociDatabase::update(id, path, state)
  unfoldable pub update_state : StageId → LogicalPath → State → Db Bool
  unfolding run_update
  update_state id path state =
      attempt (run_update (some (update_where (is_row id path) (λ f. record f { state = state }))))

  -- SociDatabase::update(id, path, state, tp)
  unfoldable pub update_logical : StageId → LogicalPath → State → TimePoint → Db Bool
  unfolding run_update
  update_logical id path state tp = attempt (run_update (logical_update id path state tp))

  -- SociDatabase::update(path, state, tp)
  unfoldable pub update_physical : PhysicalPath → State → TimePoint → Db Bool
  unfolding run_update
  update_physical path state tp = attempt (run_update (physical_update path state tp))

  for_each_logical : StageId → List LogicalPath → State → TimePoint → Db Bool
  for_each_logical id [] state tp = pure true
  for_each_logical id (p ∷ ps) state tp = do
    update_logical id p state tp
    for_each_logical id ps state tp

  -- SociDatabase::update(id, paths, state, tp)
  unfoldable pub update_all_logical : StageId → List LogicalPath → State → TimePoint → Db Bool
  unfolding for_each_logical
  update_all_logical id paths state tp = transaction E (for_each_logical id paths state tp)

  for_each_physical : List PhysicalPath → State → TimePoint → Db Bool
  for_each_physical [] state tp = pure true
  for_each_physical (p ∷ ps) state tp = do update_physical p state tp; for_each_physical ps state tp

  -- SociDatabase::update(paths, state, tp)
  unfoldable pub update_all_physical : List PhysicalPath → State → TimePoint → Db Bool
  unfolding for_each_physical
  update_all_physical paths state tp = transaction E (for_each_physical paths state tp)

  -- SociDatabase::update(path_states, tp)
  pub update_path_states : List (PhysicalPath × State) → TimePoint → Db Bool
  update_path_states [] tp = pure true
  update_path_states ((path, state) ∷ rest) tp = do
    update_physical path state tp
    update_path_states rest tp

  -- SociDatabase::update(entity)
  pub update_stage_entity : StageEntity → Db Bool
  update_stage_entity entity = do
    execute E (λ t. some (record t { stages = map (replace_stage entity) t.stages }))
    pure true

  update_stage_opt : Option StageEntity → Db Bool
  unfolding update_stage_entity
  update_stage_opt none = pure true
  update_stage_opt (some entity) = update_stage_entity entity

  -- SociDatabase::update(stage_update)
  unfoldable pub update_stage : StageUpdate → Db Bool
  unfolding update_stage_opt update_path_states
  update_stage u = transaction E (do update_stage_opt u.stage; update_path_states u.files u.tp)

  -- SociDatabase::count_files
  unfoldable pub count_files : State → Db ℕ
  count_files state = query E (λ t. length (paths_in state t))

  -- SociDatabase::get_files
  unfoldable pub get_files : State → ℕ → Db (List PhysicalPath)
  get_files state n_files =
      if E.empty_fetch_throws && eqb n_files 0
      then raise soci_error
      else query E (λ t. take n_files (E.row_order (paths_in state t)))

  -- SociDatabase::erase
  erase_rows : StageId → Db Bool
  erase_rows id = do
    count ← query E (λ t. length (keep (is_stage id) t.stages))
    if eqb count 0 then pure false else (do
      execute E (λ t. some (record t { files = keep (λ f. not (in_stage id f)) t.files }))
      execute E (λ t. some (record t { stages = keep (λ s. not (is_stage id s)) t.stages }))
      pure true)

  -- SociDatabase::erase. There is no transaction around its statements.
  unfoldable pub erase : StageId → Db Bool
  unfolding erase_rows
  erase id = attempt (erase_rows id)
