-- ===== src/Database/Sql.antt =====
-- The statements of database_soci.cpp and sql_queries.hpp: the function on the tables that each SQL
-- text denotes.
use storm_tape.Prelude.{
  Bool, true, false, ◌&&◌, ◌||◌, Option, none, some, List, [], ◌∷◌, ◌++◌, map, Text, ◌==◌, eqb,
  keep, if◌then◌else◌, text_dec,
}
use storm_tape.Model.{
  TimePoint, StageId, LogicalPath, PhysicalPath, Locality, State, submitted, started, to_underlying,
  File,
}
use storm_tape.Path.{text_lt}
use storm_tape.Algorithm.{sort}
use storm_tape.Database.Session.{StageEntity, FileEntity, Tables}

-- The constraint of the primary key (id).
unfoldable pub has_stage : StageId → List StageEntity → Bool
unfolding text_dec
has_stage id [] = false
has_stage id (s ∷ ss) = s.id == id || has_stage id ss

-- The constraint of the primary key (stage_id, logical_path).
unfoldable pub has_file : StageId → LogicalPath → List FileEntity → Bool
unfolding text_dec
has_file id path [] = false
has_file id path (f ∷ fs) = f.stage_id == id && f.logical_path == path || has_file id path fs

abbrev pub is_stage : StageId → StageEntity → Bool
is_stage id s = s.id == id

abbrev pub is_incomplete : StageEntity → Bool
is_incomplete s = eqb s.completed_at 0

-- SELECT id FROM Stage WHERE completed_at = 0
abbrev pub incomplete : Tables → List StageId
incomplete t = map (λ s. s.id) (keep is_incomplete t.stages)

-- UPDATE Stage SET … WHERE id = :id
abbrev pub replace_stage : StageEntity → StageEntity → StageEntity
replace_stage entity s = if s.id == entity.id then record entity { id = s.id } else s

-- sql::Stage::INSERT
unfoldable pub insert_stage : StageEntity → Tables → Option Tables
unfolding has_stage
insert_stage s t =
    if has_stage s.id t.stages then none else some (record t { stages = t.stages ++ s ∷ [] })

-- sql::File::INSERT
unfoldable pub insert_file : FileEntity → Tables → Option Tables
unfolding has_file
insert_file f t =
    if has_file f.stage_id f.logical_path t.files
    then none
    else some (record t { files = t.files ++ f ∷ [] })

-- `UPDATE File SET … WHERE …`
abbrev pub update_where : (FileEntity → Bool) → (FileEntity → FileEntity) → FileEntity → FileEntity
update_where p g f = if p f then g f else f

abbrev pub update_files : (FileEntity → FileEntity) → Tables → Option Tables
update_files g t = some (record t { files = map g t.files })

abbrev pub state_eq : State → State → Bool
state_eq s s' = eqb (to_underlying s) (to_underlying s')

-- state IN (:submitted, :started)
abbrev pub is_pending : State → Bool
is_pending submitted = true
is_pending started = true
is_pending _ = false

abbrev pub is_row : StageId → LogicalPath → FileEntity → Bool
is_row id path f = f.stage_id == id && f.logical_path == path

-- started_at = CASE WHEN started_at = 0 THEN :tp_start ELSE started_at END
abbrev pub finish : State → TimePoint → FileEntity → FileEntity
finish state tp f = record f {
  state = state;
  started_at = if eqb f.started_at 0 then tp else f.started_at;
  finished_at = tp;
}

abbrev pub start : TimePoint → FileEntity → FileEntity
start tp f = record f { state = started; started_at = tp }

-- The statement of update(id, path, state, tp), by the state; `none` where there is none.
unfoldable pub logical_update :
    StageId → LogicalPath → State → TimePoint → Option (FileEntity → FileEntity)
logical_update id path submitted tp = none
logical_update id path started tp = some (update_where (is_row id path) (start tp))
logical_update id path state tp = some (update_where (is_row id path) (finish state tp))

-- The statement of update(path, state, tp): only rows that the change may leave are touched.
unfoldable pub physical_update : PhysicalPath → State → TimePoint → Option (FileEntity → FileEntity)
physical_update path submitted tp = none
physical_update path started tp =
    some (update_where (λ f. f.physical_path == path && state_eq f.state submitted) (start tp))
physical_update path state tp =
    some (update_where (λ f. f.physical_path == path && is_pending f.state) (finish state tp))

-- The StageEntity, of the table or the initial one, that `into(s_entity)` leaves.
unfoldable pub find_stage : StageId → List StageEntity → StageEntity
unfolding text_dec
find_stage id [] = record { id = []; created_at = 0; started_at = 0; completed_at = 0 }
find_stage id (s ∷ ss) = if s.id == id then s else find_stage id ss

abbrev pub in_stage : StageId → FileEntity → Bool
in_stage id f = f.stage_id == id

abbrev pub logical_lt : FileEntity → FileEntity → Bool
logical_lt f g = text_lt f.logical_path g.logical_path

-- sql::File::FIND_BY_STAGE_ID
unfoldable pub rows_of : StageId → Tables → List FileEntity
unfolding sort text_lt
rows_of id t = sort logical_lt (keep (in_stage id) t.files)

abbrev pub to_file : FileEntity → File
to_file f = record {
  logical_path = f.logical_path;
  physical_path = f.physical_path;
  state = f.state;
  locality = Locality.unavailable;
  started_at = f.started_at;
  finished_at = f.finished_at;
}

abbrev pub to_entity : StageId → File → FileEntity
to_entity id f = record {
  stage_id = id;
  logical_path = f.logical_path;
  physical_path = f.physical_path;
  state = f.state;
  started_at = f.started_at;
  finished_at = f.finished_at;
}

unfoldable pub contains : Text → List Text → Bool
unfolding text_dec
contains t [] = false
contains t (u ∷ us) = u == t || contains t us

-- SELECT DISTINCT
unfoldable pub distinct : List Text → List Text
unfolding contains
distinct [] = []
distinct (t ∷ ts) = let rest = distinct ts in if contains t rest then rest else t ∷ rest

-- The physical paths of the files in a state, each once.
unfoldable pub paths_in : State → Tables → List PhysicalPath
unfolding distinct
paths_in state t =
    distinct (map (λ f. f.physical_path) (keep (λ f. state_eq f.state state) t.files))
