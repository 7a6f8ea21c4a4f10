-- ===== src/Database/Storing.antt =====
-- A stage is stored before its files and removed after them, whatever statements fail: insert and erase
-- keep what their statements allow for (Closed).
use storm_tape.Prelude.{
  ◌≡◌, ◌⊎◌, refl, ap, ◌∙◌, true, false, not, some, List, [], ◌∷◌, ◌++◌, All, keep, arith,
  Bool-cases, inl, inr, ==_iff,
}
use mathlib.Core.Option.{some-injective}
use storm_tape.Model.{StageId, submitted, failed, File, StageRequest}
use storm_tape.Database.Session.{Engine, FileEntity, StageEntity, Tables}
use storm_tape.Database.Sql.{
  to_entity, insert_stage, insert_file, has_stage, has_file, in_stage, is_stage,
}
use storm_tape.Database.Keeps.{
  Keeps, keeps_rules, Keeps-if, Keeps-bind, Keeps-pure, Keeps-transaction, Keeps-attempt,
  Keeps-execute, Gives-execute, Keeps-execute_then, Gives-bind,
}
use storm_tape.Database.Rows.{IsTimed, has_stage-append}
use storm_tape.Database.Closed.{Closed}
use storm_tape.Database.{insert_files, insert_rows, insert, erase}

-- A file whose row is one that `stage` may write.
abbrev pub IsFirstFile : File → Type 0
IsFirstFile f =
    IsTimed f.state f.started_at f.finished_at × ((f.state ≡ submitted) ⊎ (f.state ≡ failed))

-- The stage is there.
abbrev Has : (Tables → Type 0) → StageId → Tables → Type 0
Has P id t = P t × (has_stage id t.stages ≡ true)

-- It has no files.
abbrev HasNone : (Tables → Type 0) → StageId → Tables → Type 0
HasNone P id t = P t × All (λ f. in_stage id f ≡ false) t.files

insert_stage-has :
    (s : StageEntity) (t t' : Tables) → insert_stage s t ≡ some t' → has_stage s.id t'.stages ≡ true
unfolding insert_stage
insert_stage-has s t t' e = elim (Bool-cases (has_stage s.id t.stages)) [
  | inl old ↦ ground arith
  | inr new ↦
      let e' : some (record t { stages = t.stages ++ s ∷ [] }) ≡ some t' = ground arith in
      rw (← some-injective _ _ e', has_stage-append s.id t.stages s, (==_iff s.id s.id).1 refl, new)
]

insert_file-stages :
    (f : FileEntity) (t t' : Tables) → insert_file f t ≡ some t' → t'.stages ≡ t.stages
unfolding insert_file
insert_file-stages f t t' e = elim (Bool-cases (has_file f.stage_id f.logical_path t.files)) [
  | inl old ↦ ground arith
  | inr new ↦
      let e' : some (record t { files = t.files ++ f ∷ [] }) ≡ some t' = ground arith in
      rw (← some-injective _ _ e') refl
]

module _ {P : Tables → Type 0} (c : Closed P) (E : Engine) where
  insert_files-Keeps :
      (id : StageId) (fs : List File) → All IsFirstFile fs → Keeps (Has P id) (insert_files E id fs)
  unfolding insert_files
  insert_files-Keeps id [] h = Keeps-pure true
  insert_files-Keeps id (f ∷ fs) h =
      Keeps-bind _ _
        (Keeps-execute E _ λ t t' e p. (
          c.put_file (to_entity id f) h.0 t t' e p.1 p.0,
          ap (has_stage id) (insert_file-stages (to_entity id f) t t' e) ∙ p.1,
        ))
        (λ _. insert_files-Keeps id fs h.1)

  pub insert-Keeps :
      (id : StageId) (r : StageRequest) → All IsFirstFile r.files → Keeps P (insert E id r)
  unfolding insert insert_rows
  insert-Keeps id r h = Keeps-attempt _ (
      Keeps-transaction E _ (
        Keeps-execute_then P (Has P id) E _ _
          (λ t t' e p. (c.put_stage _ t t' e p, insert_stage-has _ t t' e))
          λ _. record { at = λ w p. ((insert_files-Keeps id r.files h).at w p).0 }))

  without_files :
      (id : StageId) (fs : List FileEntity)
      → All (λ f. in_stage id f ≡ false) (keep (λ f. not (in_stage id f)) fs)
  without_files id [] = tt
  without_files id (f ∷ fs) = ground (arith, without_files id fs)

  files_deleted :
      (id : StageId) (t t' : Tables)
      → some (record t { files = keep (λ f. not (in_stage id f)) t.files }) ≡ some t'
      → P t
      → HasNone P id t'
  files_deleted id t t' e p =
      rw (← some-injective _ _ e) (c.drop_files _ t p, without_files id t.files)

  stage_deleted :
      (id : StageId) (t t' : Tables)
      → some (record t { stages = keep (λ s. not (is_stage id s)) t.stages }) ≡ some t'
      → HasNone P id t
      → P t'
  stage_deleted id t t' e p = rw (← some-injective _ _ e) (c.drop_stages id t p.1 p.0)

  pub erase-Keeps : (id : StageId) → Keeps P (erase E id)
  unfolding erase
  erase-Keeps id = Keeps-attempt _ (
      Keeps-bind _ _ (search keeps_rules) λ n. Keeps-if _ _ _ (Keeps-pure false) (
        Keeps-execute_then P (HasNone P id) E _ _ (files_deleted id) λ _.
          Gives-bind P (HasNone P id) E _ _
            (Gives-execute P (HasNone P id) E _ (λ t p. p.0) (stage_deleted id))
            (λ _. Keeps-pure true)))
