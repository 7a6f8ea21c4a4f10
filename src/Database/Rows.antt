-- ===== src/Database/Rows.antt =====
-- What every row of the table File satisfies, and the primary keys.
use storm_tape.Prelude.{
  ◌<◌, ◌≡◌, refl, Bool, false, ◌&&◌, ◌||◌, some, List, [], ◌∷◌, ◌++◌, map, arith, All, keep, ◌==◌,
  Bool-cases, inl, inr,
}
use mathlib.Core.Option.{some-injective}
use storm_tape.Model.{TimePoint, StageId, LogicalPath, State, submitted, started}
use storm_tape.Database.Session.{FileEntity, StageEntity, Tables}
use storm_tape.Database.Sql.{
  has_file, has_stage, insert_file, insert_stage, update_files, replace_stage,
}

-- A file that has left SUBMITTED has a start time, and one in a final state an end time too.
abbrev pub IsTimed : State → TimePoint → TimePoint → Type 0
IsTimed submitted s e = (s ≡ 0) × (e ≡ 0)
IsTimed started s e = (0 < s) × (e ≡ 0)
IsTimed _ s e = (0 < s) × (0 < e)

abbrev pub IsRow : FileEntity → Type 0
IsRow f = IsTimed f.state f.started_at f.finished_at

abbrev pub FileKeys : List FileEntity → Type 0
FileKeys [] = Unit
FileKeys (f ∷ fs) = (has_file f.stage_id f.logical_path fs ≡ false) × FileKeys fs

abbrev pub StageKeys : List StageEntity → Type 0
StageKeys [] = Unit
StageKeys (s ∷ ss) = (has_stage s.id ss ≡ false) × StageKeys ss

pub record IsValid (t : Tables) : Type 0 where
  pub rows : All IsRow t.files
  pub file_keys : FileKeys t.files
  pub stage_keys : StageKeys t.stages

-- A change of one row that keeps its key, and is right about the times.
pub record IsGentle (g : FileEntity → FileEntity) : Type 0 where
  pub stage_id : (f : FileEntity) → (g f).stage_id ≡ f.stage_id
  pub logical_path : (f : FileEntity) → (g f).logical_path ≡ f.logical_path
  pub row : (f : FileEntity) → IsRow f → IsRow (g f)

module _ {g : FileEntity → FileEntity} (q : IsGentle g) where
  rows-map : (fs : List FileEntity) → All IsRow fs → All IsRow (map g fs)
  rows-map [] h = tt
  rows-map (f ∷ fs) h = (q.row f h.0, rows-map fs h.1)

  has_file-map :
      (id : StageId) (p : LogicalPath) (fs : List FileEntity)
      → has_file id p (map g fs) ≡ has_file id p fs
  unfolding has_file
  has_file-map id p [] = refl
  has_file-map id p (f ∷ fs) = rw (q.stage_id f, q.logical_path f, has_file-map id p fs)

  FileKeys-map : (fs : List FileEntity) → FileKeys fs → FileKeys (map g fs)
  FileKeys-map [] h = tt
  FileKeys-map (f ∷ fs) h = (
    rw (q.stage_id f, q.logical_path f, has_file-map f.stage_id f.logical_path fs) h.0,
    FileKeys-map fs h.1,
  )

  pub update_files-IsValid : (t t' : Tables) → update_files g t ≡ some t' → IsValid t → IsValid t'
  update_files-IsValid t t' e v = rw (← some-injective _ _ e) (record {
    rows = rows-map t.files v.rows;
    file_keys = FileKeys-map t.files v.file_keys;
    stage_keys = v.stage_keys;
  })

pub has_file-append :
    (id : StageId) (p : LogicalPath) (fs : List FileEntity) (f : FileEntity)
    → has_file id p (fs ++ f ∷ []) ≡ (has_file id p fs || (f.stage_id == id && f.logical_path == p))
unfolding has_file
has_file-append id p [] f = ground arith
has_file-append id p (g ∷ fs) f = ground (arith, has_file-append id p fs f)

FileKeys-append :
    (fs : List FileEntity) (f : FileEntity)
    → FileKeys fs
    → has_file f.stage_id f.logical_path fs ≡ false
    → FileKeys (fs ++ f ∷ [])
unfolding has_file
FileKeys-append [] f h k = (refl, tt)
FileKeys-append (g ∷ fs) f h k = (
  ground (arith, has_file-append g.stage_id g.logical_path fs f),
  FileKeys-append fs f h.1 (ground arith),
)

rows-append :
    (fs : List FileEntity) (f : FileEntity) → All IsRow fs → IsRow f → All IsRow (fs ++ f ∷ [])
rows-append [] f h k = (k, tt)
rows-append (g ∷ fs) f h k = (h.0, rows-append fs f h.1 k)

pub insert_file-IsValid :
    (f : FileEntity)
    → IsRow f
    → (t t' : Tables) → insert_file f t ≡ some t'
    → IsValid t
    → IsValid t'
unfolding insert_file
insert_file-IsValid f r t t' e v = elim (Bool-cases (has_file f.stage_id f.logical_path t.files)) [
  | inl old ↦ ground arith
  | inr new ↦
      let e' : some (record t { files = t.files ++ f ∷ [] }) ≡ some t' = ground arith in
      rw (← some-injective _ _ e') (record {
        rows = rows-append t.files f v.rows r;
        file_keys = FileKeys-append t.files f v.file_keys new;
        stage_keys = v.stage_keys;
      })
]

pub has_stage-append :
    (id : StageId) (ss : List StageEntity) (s : StageEntity)
    → has_stage id (ss ++ s ∷ []) ≡ (has_stage id ss || s.id == id)
unfolding has_stage
has_stage-append id [] s = ground arith
has_stage-append id (r ∷ ss) s = ground (arith, has_stage-append id ss s)

StageKeys-append :
    (ss : List StageEntity) (s : StageEntity)
    → StageKeys ss
    → has_stage s.id ss ≡ false
    → StageKeys (ss ++ s ∷ [])
unfolding has_stage
StageKeys-append [] s h k = (refl, tt)
StageKeys-append (r ∷ ss) s h k =
    (ground (arith, has_stage-append r.id ss s), StageKeys-append ss s h.1 (ground arith))

pub insert_stage-IsValid :
    (s : StageEntity) (t t' : Tables) → insert_stage s t ≡ some t' → IsValid t → IsValid t'
unfolding insert_stage
insert_stage-IsValid s t t' e v = elim (Bool-cases (has_stage s.id t.stages)) [
  | inl old ↦ ground arith
  | inr new ↦
      let e' : some (record t { stages = t.stages ++ s ∷ [] }) ≡ some t' = ground arith in
      rw (← some-injective _ _ e') (record {
        rows = v.rows;
        file_keys = v.file_keys;
        stage_keys = StageKeys-append t.stages s v.stage_keys new;
      })
]

module _ (entity : StageEntity) where
  pub has_stage-replace :
      (id : StageId) (ss : List StageEntity)
      → has_stage id (map (replace_stage entity) ss) ≡ has_stage id ss
  unfolding has_stage
  has_stage-replace id [] = refl
  has_stage-replace id (s ∷ ss) = ground (arith, has_stage-replace id ss)

  pub StageKeys-replace :
      (ss : List StageEntity) → StageKeys ss → StageKeys (map (replace_stage entity) ss)
  StageKeys-replace [] h = tt
  StageKeys-replace (s ∷ ss) h =
      (ground (arith, has_stage-replace s.id ss), StageKeys-replace ss h.1)

module _ (p : StageEntity → Bool) where
  has_stage-keep :
      (id : StageId) (ss : List StageEntity)
      → has_stage id ss ≡ false
      → has_stage id (keep p ss) ≡ false
  unfolding has_stage
  has_stage-keep id [] h = refl
  has_stage-keep id (s ∷ ss) h = ground (arith, has_stage-keep id ss)

  pub StageKeys-keep : (ss : List StageEntity) → StageKeys ss → StageKeys (keep p ss)
  StageKeys-keep [] h = tt
  StageKeys-keep (s ∷ ss) h = ground (arith, has_stage-keep s.id ss, StageKeys-keep ss h.1)

module _ (p : FileEntity → Bool) where
  has_file-keep :
      (id : StageId) (l : LogicalPath) (fs : List FileEntity)
      → has_file id l fs ≡ false
      → has_file id l (keep p fs) ≡ false
  unfolding has_file
  has_file-keep id l [] h = refl
  has_file-keep id l (f ∷ fs) h = ground (arith, has_file-keep id l fs)

  pub FileKeys-keep : (fs : List FileEntity) → FileKeys fs → FileKeys (keep p fs)
  FileKeys-keep [] h = tt
  FileKeys-keep (f ∷ fs) h =
      ground (arith, has_file-keep f.stage_id f.logical_path fs, FileKeys-keep fs h.1)

  pub rows-keep : (fs : List FileEntity) → All IsRow fs → All IsRow (keep p fs)
  rows-keep [] h = tt
  rows-keep (f ∷ fs) h = ground (arith, rows-keep fs h.1)
