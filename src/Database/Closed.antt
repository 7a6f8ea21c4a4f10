-- ===== src/Database/Closed.antt =====
-- What a property of the tables must allow for every operation of the service to keep it: one field
-- for each statement that the service runs.
use storm_tape.Prelude.{◌<◌, ◌≡◌, ◌⊎◌, Bool, true, false, not, some, map, keep, All}
use storm_tape.Model.{
  TimePoint, StageId, LogicalPath, PhysicalPath, State, submitted, cancelled, failed,
}
use storm_tape.Database.Session.{StageEntity, FileEntity, Tables}
use storm_tape.Database.Sql.{
  insert_stage, insert_file, is_row, finish, update_where, physical_update, replace_stage,
  has_stage, in_stage, is_stage,
}
use storm_tape.Database.Rows.{IsRow}

-- A row as `stage` writes it: waiting, or failed from the start.
abbrev pub IsFirst : FileEntity → Type 0
IsFirst f = IsRow f × ((f.state ≡ submitted) ⊎ (f.state ≡ failed))

pub record Closed (P : Tables → Type 0) : Type 0 where
  pub put_stage : (s : StageEntity) (t t' : Tables) → insert_stage s t ≡ some t' → P t → P t'
  pub put_file :
      (f : FileEntity)
      → IsFirst f
      → (t t' : Tables) → insert_file f t ≡ some t'
      → has_stage f.stage_id t.stages ≡ true
      → P t
      → P t'
  pub cancel :
      (id : StageId) (p : LogicalPath) (tp : TimePoint)
      → 0 < tp
      → (t : Tables) → P t
      → P (record t { files = map (update_where (is_row id p) (finish cancelled tp)) t.files })
  pub move :
      (p : PhysicalPath) (s : State) (tp : TimePoint) (g : FileEntity → FileEntity)
      → 0 < tp
      → physical_update p s tp ≡ some g
      → (t : Tables) → P t
      → P (record t { files = map g t.files })
  pub replace :
      (entity : StageEntity) (t : Tables)
      → P t
      → P (record t { stages = map (replace_stage entity) t.stages })
  pub drop_files :
      (q : FileEntity → Bool) (t : Tables) → P t → P (record t { files = keep q t.files })
  pub drop_stages :
      (id : StageId) (t : Tables)
      → All (λ f. in_stage id f ≡ false) t.files
      → P t
      → P (record t { stages = keep (λ s. not (is_stage id s)) t.stages })
