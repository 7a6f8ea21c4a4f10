-- ===== src/Database/RoundTrip.antt =====
-- A stage that is inserted is found, with its files.
use mathlib.Core.List.{Perm}
use mathlib.Core.List.Perm
use storm_tape.Prelude.{
  ◌≡◌, ◌≢◌, refl, sym, ap, subst, ◌∙◌, true, false, some, List, [], ◌∷◌, ◌++◌, map, arith, All,
  keep, ==_iff, append-nil, append_assoc,
}
use storm_tape.Model.{StageId, LogicalPath, Locality, File, StageRequest}
use storm_tape.Algorithm.{sort}
use storm_tape.Algorithm.Sorting.{sort-perm}
use storm_tape.Database.Session.{Engine, Tables, World, StageEntity, FileEntity, ok, pure}
use storm_tape.Database.Sql.{
  has_stage, has_file, insert_stage, insert_file, find_stage, in_stage, rows_of, logical_lt,
  to_file, to_entity,
}
use storm_tape.Database.Rows.{has_file-append}
use storm_tape.Database.Runs.{
  IsQuiet, Runs, Runs-pure, Runs-bind, Runs-attempt, Runs-execute, Runs-transaction,
}
use storm_tape.Database.Lookup.{find_in, find-Runs}
use storm_tape.Database.{insert, insert_rows, insert_files, find}

abbrev pub DistinctPaths : List File → Type 0
DistinctPaths [] = Unit
DistinctPaths (f ∷ fs) = All (λ g. g.logical_path ≢ f.logical_path) fs × DistinctPaths fs

-- The row of the table Stage that `insert` writes.
abbrev pub stage_row : StageId → StageRequest → StageEntity
stage_row id r = record {
  id = id;
  created_at = r.created_at;
  started_at = r.started_at;
  completed_at = r.completed_at;
}

-- The tables with a stage and its files added.
abbrev pub with_stage : StageId → StageRequest → Tables → Tables
with_stage id r t = record {
  stages = t.stages ++ stage_row id r ∷ [];
  files = t.files ++ map (to_entity id) r.files;
}

-- The id is new to both tables, and no two files of the request have one path.
pub record IsFresh (id : StageId) (r : StageRequest) (t : Tables) : Type 0 where
  pub stage : has_stage id t.stages ≡ false
  pub files : keep (in_stage id) t.files ≡ []
  pub paths : DistinctPaths r.files

has_file_of_none :
    (id : StageId) (p : LogicalPath) (fs : List FileEntity)
    → keep (in_stage id) fs ≡ []
    → has_file id p fs ≡ false
unfolding has_file
has_file_of_none id p [] h = refl
has_file_of_none id p (f ∷ fs) h = ground (arith, has_file_of_none id p fs)

still_absent :
    (id : StageId) (f : File) (ts : List FileEntity) (fs : List File)
    → All (λ g. has_file id g.logical_path ts ≡ false) fs
    → All (λ g. g.logical_path ≢ f.logical_path) fs
    → All (λ g. has_file id g.logical_path (ts ++ to_entity id f ∷ []) ≡ false) fs
still_absent id f ts [] h d = tt
still_absent id f ts (g ∷ fs) h d = (
  ground (arith, has_file-append id g.logical_path ts (to_entity id f), h.0, d.0),
  still_absent id f ts fs h.1 d.1,
)

absent-All :
    (id : StageId) (ts : List FileEntity) (fs : List File)
    → keep (in_stage id) ts ≡ []
    → All (λ g. has_file id g.logical_path ts ≡ false) fs
absent-All id ts [] h = tt
absent-All id ts (f ∷ fs) h = (has_file_of_none id f.logical_path ts h, absent-All id ts fs h)

module _ (E : Engine) (quiet : IsQuiet E) where
  insert_files-Runs :
      (id : StageId) (fs : List File) (w : World) (t : Tables)
      → w.tables ≡ t
      → All (λ g. has_file id g.logical_path t.files ≡ false) fs
      → DistinctPaths fs
      → Runs (insert_files E id fs) w true (record t { files = t.files ++ map (to_entity id) fs })
  unfolding insert_files insert_file
  insert_files-Runs id [] w t e h d =
      subst (λ u. Runs (pure true) w true u)
        (e ∙ ap (λ fs. record t { files = fs }) (sym (append-nil t.files))) (Runs-pure w true)
  insert_files-Runs id (f ∷ fs) w t e h d =
      Runs-bind _ _ w tt true (record t { files = t.files ++ to_entity id f ∷ [] }) _
        (Runs-execute E quiet (insert_file (to_entity id f)) w _
          (ap (insert_file (to_entity id f)) e ∙ rw h.0))
        λ w' e' _.
          subst (λ gs. Runs (insert_files E id fs) w' true (record t { files = gs }))
            (append_assoc t.files (to_entity id f ∷ []) (map (to_entity id) fs))
            (insert_files-Runs id fs w' _ e' (still_absent id f t.files fs h.1 d.0) d.1)

  -- A fresh stage is added to the tables.
  pub insert-Runs :
      (id : StageId) (r : StageRequest) (w : World)
      → IsFresh id r w.tables
      → Runs (insert E id r) w true (with_stage id r w.tables)
  unfolding insert insert_rows insert_stage
  insert-Runs id r w h = Runs-attempt _ w true _ (
      Runs-transaction E quiet _ w true _ λ w1 e1 _.
        Runs-bind _ _ w1 tt true
          (record w.tables { stages = w.tables.stages ++ stage_row id r ∷ [] }) _
          (Runs-execute E quiet (insert_stage (stage_row id r)) w1 _
            (ap (insert_stage (stage_row id r)) e1 ∙ rw h.stage))
          λ w2 e2 _.
            insert_files-Runs id r.files w2 _ e2 (absent-All id w.tables.files r.files h.files)
              h.paths)

pub find_stage-append :
    (id : StageId) (ss : List StageEntity) (s : StageEntity)
    → has_stage id ss ≡ false
    → s.id ≡ id
    → find_stage id (ss ++ s ∷ []) ≡ s
unfolding find_stage has_stage
find_stage-append id [] s h e = ground arith
find_stage-append id (r ∷ ss) s h e = ground (arith, find_stage-append id ss s)

keep-append_rows :
    (id : StageId) (ts : List FileEntity) (fs : List File)
    → keep (in_stage id) ts ≡ []
    → keep (in_stage id) (ts ++ map (to_entity id) fs) ≡ map (to_entity id) fs
keep-append_rows id [] [] h = refl
keep-append_rows id [] (f ∷ fs) h = ground (arith, keep-append_rows id [] fs h)
keep-append_rows id (t ∷ ts) fs h = ground (arith, keep-append_rows id ts fs)

-- A file as it comes back: the locality is not stored.
abbrev pub stored : File → File
stored f = record f { locality = Locality.unavailable }

pub map-stored :
    (id : StageId) (fs : List File) → map to_file (map (to_entity id) fs) ≡ map stored fs
map-stored id [] = refl
map-stored id (f ∷ fs) = ap (◌∷◌ (stored f)) (map-stored id fs)

-- A stage whose id is new and whose files have different paths is found after its insertion, with its
-- times, and with its files in some order, their localities forgotten.
pub find-insert :
    (E : Engine) (quiet : IsQuiet E) (id : StageId) (r : StageRequest) (w : World)
    → IsFresh id r w.tables
    → (w' : World) × (w'' : World) × (s : StageRequest) × (insert E id r w ≡ (ok true, w'))
      × (find E id w' ≡ (ok (some s), w''))
      × Perm s.files (map stored r.files)
      × (s.created_at ≡ r.created_at)
      × (s.started_at ≡ r.started_at)
      × (s.completed_at ≡ r.completed_at)
unfolding rows_of
find-insert E quiet id r w h =
    let put = insert-Runs E quiet id r w h in
    let got = find-Runs E quiet id put.after in
    let s : StageRequest = record {
      files = map to_file (sort logical_lt (map (to_entity id) r.files));
      created_at = r.created_at;
      started_at = r.started_at;
      completed_at = r.completed_at;
    } in
    (
      put.after,
      got.after,
      s,
      put.result,
      got.result ∙ ap (λ o. (ok o, got.after)) (ap (find_in id) put.tables ∙ looked_up),
      subst (Perm s.files) (map-stored id r.files) (Perm.map to_file (sort-perm logical_lt _)),
      refl,
      refl,
      refl,
    )
  where
    looked_up :
        find_in id (with_stage id r w.tables)
        ≡ some (record {
          files = map to_file (sort logical_lt (map (to_entity id) r.files));
          created_at = r.created_at;
          started_at = r.started_at;
          completed_at = r.completed_at;
        })
    looked_up = rw (
      find_stage-append id w.tables.stages (stage_row id r) h.stage refl,
      keep-append_rows id w.tables.files r.files h.files,
      (==_iff id id).1 refl,
    )
