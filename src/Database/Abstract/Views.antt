-- ===== src/Database/Abstract/Views.antt =====
-- What each change of the tables but a removal is to the abstract store.
use mathlib.Core.Path.{fun_ext}
use storm_tape.Prelude.{
  ◌≡◌, refl, ap, subst, ◌∙◌, true, false, some, List, [], ◌∷◌, ◌++◌, map, arith, keep, ◌==◌, ==_iff,
  if◌then◌else◌, Bool-cases, inl, inr,
}
use storm_tape.Model.{StageId, File, StageRequest}
use storm_tape.Database.Session.{StageEntity, FileEntity, Tables}
use storm_tape.Database.Sql.{has_stage, find_stage, in_stage, replace_stage, to_file, to_entity}
use storm_tape.Database.Rows.{has_stage-append, has_stage-replace}
use storm_tape.Database.RoundTrip.{stage_row, with_stage, stored, map-stored, find_stage-append}
use storm_tape.Database.Abstract.{
  view, map_bag, map_files, forget, at, everywhere, put, set_times, on_stage,
}

-- The rows of a stage.
abbrev pub rows : StageId → List FileEntity → List FileEntity
rows k = keep (in_stage k)

map-id_file : (fs : List File) → map (λ f. f) fs ≡ fs
map-id_file [] = refl
map-id_file (f ∷ fs) = ap (◌∷◌ f) (map-id_file fs)

module _ (k : StageId) (g : FileEntity → FileEntity) (h : File → File)
    (same_stage : (e : FileEntity) → (g e).stage_id ≡ e.stage_id)
    (same_change : (e : FileEntity) → in_stage k e ≡ true → to_file (g e) ≡ h (to_file e)) where
  rows-map :
      (fs : List FileEntity) → map to_file (rows k (map g fs)) ≡ map h (map to_file (rows k fs))
  rows-map [] = refl
  rows-map (e ∷ fs) = elim (Bool-cases (in_stage k e)) [
    | inl here ↦ rw (same_stage e, here, same_change e here, rows-map fs)
    | inr there ↦ rw (same_stage e, there, rows-map fs)
  ]

  view_at_key :
      (t : Tables) → view (record t { files = map g t.files }) k ≡ on_stage (map_files h) (view t k)
  unfolding view map_bag
  view_at_key t = elim (Bool-cases (has_stage k t.stages)) [
    | inl here ↦ rw (here, rows-map t.files)
    | inr there ↦ rw there
  ]

view-same : (k : StageId) (t : Tables) → on_stage (map_files (λ f. f)) (view t k) ≡ view t k
unfolding view map_bag
view-same k t = elim (Bool-cases (has_stage k t.stages)) [
  | inl here ↦ rw (here, map-id_file (map to_file (rows k t.files)))
  | inr there ↦ rw there
]

-- A change of the rows of one stage.
pub view-at :
    (id : StageId) (g : FileEntity → FileEntity) (h : File → File) (t : Tables)
    → ((e : FileEntity) → (g e).stage_id ≡ e.stage_id)
    → ((e : FileEntity) → in_stage id e ≡ true → to_file (g e) ≡ h (to_file e))
    → ((e : FileEntity) → in_stage id e ≡ false → g e ≡ e)
    → view (record t { files = map g t.files }) ≡ at id (map_files h) (view t)
view-at id g h t same_stage change others = fun_ext λ k. elim (Bool-cases (k == id)) [
  | inl here ↦ rw here (
      view_at_key k g h same_stage
        (λ e m. change e (subst (λ i. in_stage i e ≡ true) ((==_iff k id).0 here) m)) t)
  | inr there ↦ rw there (
      view_at_key k g (λ f. f) same_stage
        (λ e m.
          ap to_file
            (others e (ground (arith, ==_iff e.stage_id k, ==_iff e.stage_id id, ==_iff k id))))
        t
      ∙ view-same k t)
]

-- A change of all rows.
pub view-everywhere :
    (g : FileEntity → FileEntity) (h : File → File) (t : Tables)
    → ((e : FileEntity) → (g e).stage_id ≡ e.stage_id)
    → ((e : FileEntity) → to_file (g e) ≡ h (to_file e))
    → view (record t { files = map g t.files }) ≡ everywhere h (view t)
view-everywhere g h t same_stage change =
    fun_ext λ k. view_at_key k g h same_stage (λ e _. change e) t

rows-append_same :
    (id : StageId) (ts : List FileEntity) (fs : List File)
    → rows id (ts ++ map (to_entity id) fs) ≡ rows id ts ++ map (to_entity id) fs
rows-append_same id [] [] = refl
rows-append_same id [] (f ∷ fs) = ground (arith, rows-append_same id [] fs)
rows-append_same id (t ∷ ts) fs = ground (arith, rows-append_same id ts fs)

rows-append_other :
    (k id : StageId) (ts : List FileEntity) (fs : List File)
    → (k == id) ≡ false
    → rows k (ts ++ map (to_entity id) fs) ≡ rows k ts
rows-append_other k id [] [] n = refl
rows-append_other k id [] (f ∷ fs) n =
    ground (arith, rows-append_other k id [] fs n, ==_iff id k, ==_iff k id)
rows-append_other k id (t ∷ ts) fs n = ground (arith, rows-append_other k id ts fs n)

find_stage-append_other :
    (k : StageId) (ss : List StageEntity) (s : StageEntity)
    → has_stage k ss ≡ true
    → find_stage k (ss ++ s ∷ []) ≡ find_stage k ss
unfolding find_stage has_stage
find_stage-append_other k [] s h = ground arith
find_stage-append_other k (r ∷ ss) s h = ground (arith, find_stage-append_other k ss s)

-- A stage that is added.
pub view-with_stage :
    (id : StageId) (r : StageRequest) (t : Tables)
    → has_stage id t.stages ≡ false
    → rows id t.files ≡ []
    → view (with_stage id r t)
      ≡ put id (some (forget (record r { files = map stored r.files }))) (view t)
unfolding view
view-with_stage id r t new none_left = fun_ext λ k. elim (Bool-cases (k == id)) [
  | inl here ↦
      rw (here, (==_iff k id).0 here)
        (rw (
          has_stage-append id t.stages (stage_row id r),
          new,
          (==_iff id id).1 refl,
          find_stage-append id t.stages (stage_row id r) new refl,
          rows-append_same id t.files r.files,
          none_left,
          map-stored id r.files,
        ))
  | inr there ↦ elim (Bool-cases (has_stage k t.stages)) [
    | inl old ↦ rw (
      there,
      has_stage-append k t.stages (stage_row id r),
      old,
      find_stage-append_other k t.stages (stage_row id r) old,
      rows-append_other k id t.files r.files there,
    )
    | inr missing ↦
        ground
          (arith, has_stage-append k t.stages (stage_row id r), missing, ==_iff id k, ==_iff k id)
  ]
]

find_stage-replace :
    (entity : StageEntity) (k : StageId) (ss : List StageEntity)
    → has_stage k ss ≡ true
    → find_stage k (map (replace_stage entity) ss)
      ≡ (if k == entity.id then entity else find_stage k ss)
unfolding find_stage has_stage
find_stage-replace entity k [] h = ground arith
find_stage-replace entity k (s ∷ ss) h = ground (
  arith,
  find_stage-replace entity k ss,
  ==_iff s.id k,
  ==_iff s.id entity.id,
  ==_iff k entity.id,
)

-- A row of the table Stage that is replaced.
pub view-replace :
    (entity : StageEntity) (t : Tables)
    → view (record t { stages = map (replace_stage entity) t.stages })
      ≡ set_times (some entity) (view t)
unfolding view
view-replace entity t = fun_ext λ k. elim (Bool-cases (has_stage k t.stages)) [
  | inl old ↦ elim (Bool-cases (k == entity.id)) [
    | inl here ↦ rw (
      here,
      has_stage-replace entity k t.stages,
      old,
      find_stage-replace entity k t.stages old,
      here,
    )
    | inr there ↦ rw (
      there,
      has_stage-replace entity k t.stages,
      old,
      find_stage-replace entity k t.stages old,
      there,
    )
  ]
  | inr missing ↦ elim (Bool-cases (k == entity.id)) [
    | inl here ↦ rw (here, has_stage-replace entity k t.stages, missing)
    | inr there ↦ rw (there, has_stage-replace entity k t.stages, missing)
  ]
]
