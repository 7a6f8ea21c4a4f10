-- ===== src/Database/Owned.antt =====
-- No row of the table File is without its stage: the statements of the service allow for it.
use storm_tape.Prelude.{
  ◌≡◌, refl, ap, ◌∙◌, Bool, true, false, not, ◌||◌, some, List, [], ◌∷◌, ◌++◌, map, arith, All,
  All-map, All-append, keep, Bool-cases, inl, inr, ◌==◌, ==_iff,
}
use mathlib.Core.Option.{some-injective}
use storm_tape.Model.{StageId, cancelled}
use storm_tape.Database.Session.{FileEntity, StageEntity, Tables}
use storm_tape.Database.Sql.{
  insert_stage, insert_file, has_stage, has_file, in_stage, is_stage, replace_stage,
}
use storm_tape.Database.Rows.{IsGentle, has_stage-append, has_stage-replace}
use storm_tape.Database.Gentle.{finish-IsGentle}
use storm_tape.Database.Valid.{moved_IsGentle}
use storm_tape.Database.Closed.{Closed}

abbrev pub HasOwner : List StageEntity → FileEntity → Type 0
HasOwner ss f = has_stage f.stage_id ss ≡ true

-- Every file has its stage.
abbrev pub IsOwned : Tables → Type 0
IsOwned t = All (HasOwner t.stages) t.files

put_stage-IsOwned :
    (s : StageEntity) (t t' : Tables) → insert_stage s t ≡ some t' → IsOwned t → IsOwned t'
unfolding insert_stage
put_stage-IsOwned s t t' e h = elim (Bool-cases (has_stage s.id t.stages)) [
  | inl old ↦ ground arith
  | inr new ↦
      let e' : some (record t { stages = t.stages ++ s ∷ [] }) ≡ some t' = ground arith in
      rw (← some-injective _ _ e') (
        All-map (HasOwner t.stages) (HasOwner (t.stages ++ s ∷ [])) t.files
          (λ f o. has_stage-append f.stage_id t.stages s ∙ ap (λ b. b || s.id == f.stage_id) o) h)
]

put_file-IsOwned :
    (f : FileEntity) (t t' : Tables)
    → insert_file f t ≡ some t'
    → has_stage f.stage_id t.stages ≡ true
    → IsOwned t
    → IsOwned t'
unfolding insert_file
put_file-IsOwned f t t' e o h = elim (Bool-cases (has_file f.stage_id f.logical_path t.files)) [
  | inl old ↦ ground arith
  | inr new ↦
      let e' : some (record t { files = t.files ++ f ∷ [] }) ≡ some t' = ground arith in
      rw (← some-injective _ _ e') (All-append (HasOwner t.stages) t.files (f ∷ []) h (o, tt))
]

-- A change that keeps the keys.
map-IsOwned :
    (ss : List StageEntity) (g : FileEntity → FileEntity) (fs : List FileEntity)
    → IsGentle g
    → All (HasOwner ss) fs
    → All (HasOwner ss) (map g fs)
map-IsOwned ss g [] q h = tt
map-IsOwned ss g (f ∷ fs) q h =
    (ap (λ id. has_stage id ss) (q.stage_id f) ∙ h.0, map-IsOwned ss g fs q h.1)

keep-IsOwned :
    (ss : List StageEntity) (q : FileEntity → Bool) (fs : List FileEntity)
    → All (HasOwner ss) fs
    → All (HasOwner ss) (keep q fs)
keep-IsOwned ss q [] h = tt
keep-IsOwned ss q (f ∷ fs) h = ground (arith, keep-IsOwned ss q fs h.1)

-- The other stages stay.
pub has_stage-others :
    (id other : StageId) (ss : List StageEntity)
    → (other == id) ≡ false
    → has_stage other (keep (λ s. not (is_stage id s)) ss) ≡ has_stage other ss
unfolding has_stage
has_stage-others id other [] n = refl
has_stage-others id other (s ∷ ss) n =
    ground
      (arith, has_stage-others id other ss n, ==_iff s.id id, ==_iff s.id other, ==_iff other id)

others-IsOwned :
    (id : StageId) (ss : List StageEntity) (fs : List FileEntity)
    → All (λ f. in_stage id f ≡ false) fs
    → All (HasOwner ss) fs
    → All (HasOwner (keep (λ s. not (is_stage id s)) ss)) fs
others-IsOwned id ss [] n h = tt
others-IsOwned id ss (f ∷ fs) n h =
    (has_stage-others id f.stage_id ss n.0 ∙ h.0, others-IsOwned id ss fs n.1 h.1)

pub IsOwned-Closed : Closed IsOwned
IsOwned-Closed = record {
  put_stage = put_stage-IsOwned;
  put_file = λ f first. put_file-IsOwned f;
  cancel = λ id p tp h t. map-IsOwned t.stages _ t.files (finish-IsGentle _ cancelled tp refl h);
  move = λ p s tp g h e t. map-IsOwned t.stages g t.files (moved_IsGentle p s tp g h e);
  replace = λ entity t.
      All-map (HasOwner t.stages) (HasOwner (map (replace_stage entity) t.stages)) t.files
        (λ f o. has_stage-replace entity f.stage_id t.stages ∙ o);
  drop_files = λ q t. keep-IsOwned t.stages q t.files;
  drop_stages = λ id t. others-IsOwned id t.stages t.files;
}
