-- ===== src/Database/Updates.antt =====
-- The updates of SociDatabase when no statement fails: the rows that each leaves.
use storm_tape.Prelude.{
  ◌≡◌, refl, sym, ap, subst, ◌∙◌, Bool, true, false, ◌||◌, Option, none, some, List, [], ◌∷◌, map,
  arith, if◌then◌else◌,
}
use storm_tape.Model.{TimePoint, StageId, LogicalPath, PhysicalPath, State, cancelled}
use storm_tape.Database.Session.{Engine, StageEntity, FileEntity, Tables, World, pure}
use storm_tape.Database.Sql.{
  is_row, finish, update_where, update_files, logical_update, physical_update, replace_stage,
}
use storm_tape.Database.Runs.{
  IsQuiet, Runs, Runs-pure, Runs-bind, Runs-attempt, Runs-execute, Runs-transaction,
}
use storm_tape.Database.{
  StageUpdate, run_update, update_logical, for_each_logical, update_all_logical, update_physical,
  for_each_physical, update_all_physical, update_path_states, update_stage_entity, update_stage_opt,
  update_stage,
}

-- The row is that of a file of the stage with one of the paths.
abbrev pub is_listed : StageId → List LogicalPath → FileEntity → Bool
is_listed id [] f = false
is_listed id (p ∷ ps) f = is_row id p f || is_listed id ps f

-- A row after `cancel`.
abbrev pub cancel_row : StageId → List LogicalPath → TimePoint → FileEntity → FileEntity
cancel_row id ps tp f = if is_listed id ps f then finish cancelled tp f else f

abbrev pub cancel_rows : StageId → List LogicalPath → TimePoint → Tables → Tables
cancel_rows id ps tp t = record t { files = map (cancel_row id ps tp) t.files }

-- A row, and the tables, after an update by physical path.
abbrev pub run_row : Option (FileEntity → FileEntity) → FileEntity → FileEntity
run_row none f = f
run_row (some g) f = g f

abbrev pub move_rows : PhysicalPath → State → TimePoint → Tables → Tables
move_rows p s tp t = record t { files = map (run_row (physical_update p s tp)) t.files }

abbrev pub move_all : List PhysicalPath → State → TimePoint → Tables → Tables
move_all [] s tp t = t
move_all (p ∷ ps) s tp t = move_all ps s tp (move_rows p s tp t)

abbrev pub move_each : List (PhysicalPath × State) → TimePoint → Tables → Tables
move_each [] tp t = t
move_each ((p, s) ∷ rest) tp t = move_each rest tp (move_rows p s tp t)

abbrev pub replace : Option StageEntity → Tables → Tables
replace none t = t
replace (some entity) t = record t { stages = map (replace_stage entity) t.stages }

map-id : (fs : List FileEntity) → map (λ f. f) fs ≡ fs
map-id [] = refl
map-id (f ∷ fs) = ap (◌∷◌ f) (map-id fs)

cancel_row-cons :
    (id : StageId) (p : LogicalPath) (ps : List LogicalPath) (tp : TimePoint) (f : FileEntity)
    → cancel_row id ps tp (update_where (is_row id p) (finish cancelled tp) f)
      ≡ cancel_row id (p ∷ ps) tp f
cancel_row-cons id p ps tp f = go (is_row id p f) refl
  where
    listed : (ps : List LogicalPath) → is_listed id ps (finish cancelled tp f) ≡ is_listed id ps f
    listed [] = refl
    listed (q ∷ qs) = ap (λ b. is_row id q f || b) (listed qs)

    again : finish cancelled tp (finish cancelled tp f) ≡ finish cancelled tp f
    again = ground arith

    pick :
        (b : Bool)
        → (if b then finish cancelled tp (finish cancelled tp f) else finish cancelled tp f)
          ≡ finish cancelled tp f
    pick true = again
    pick false = refl

    go :
        (b : Bool)
        → is_row id p f ≡ b
        → cancel_row id ps tp (if b then finish cancelled tp f else f)
          ≡ (if b || is_listed id ps f then finish cancelled tp f else f)
    go true e = pick (is_listed id ps (finish cancelled tp f))
    go false e = refl

cancel_rows-cons :
    (id : StageId) (p : LogicalPath) (ps : List LogicalPath) (tp : TimePoint) (fs : List FileEntity)
    → map (cancel_row id ps tp) (map (update_where (is_row id p) (finish cancelled tp)) fs)
      ≡ map (cancel_row id (p ∷ ps) tp) fs
cancel_rows-cons id p ps tp [] = refl
cancel_rows-cons id p ps tp (f ∷ fs) =
    rw (cancel_row-cons id p ps tp f, cancel_rows-cons id p ps tp fs)

module _ (E : Engine) (quiet : IsQuiet E) where
  pub run_update-Runs :
      (g : Option (FileEntity → FileEntity)) (w : World)
      → Runs (run_update E g) w true (record w.tables { files = map (run_row g) w.tables.files })
  unfolding run_update
  run_update-Runs none w =
      subst (λ fs. Runs (pure true) w true (record w.tables { files = fs }))
        (sym (map-id w.tables.files)) (Runs-pure w true)
  run_update-Runs (some g) w =
      Runs-bind _ _ w tt true _ _ (Runs-execute E quiet (update_files g) w _ refl)
        λ w' e _. subst (Runs (pure true) w' true) e (Runs-pure w' true)

  for_each_logical-Runs :
      (id : StageId) (ps : List LogicalPath) (tp : TimePoint) (w : World) (t : Tables)
      → w.tables ≡ t
      → Runs (for_each_logical E id ps cancelled tp) w true (cancel_rows id ps tp t)
  unfolding for_each_logical update_logical logical_update
  for_each_logical-Runs id [] tp w t e =
      subst (Runs (pure true) w true)
        (e ∙ ap (λ fs. record t { files = fs }) (sym (map-id t.files))) (Runs-pure w true)
  for_each_logical-Runs id (p ∷ ps) tp w t e =
      Runs-bind _ _ w true true _ _
        (Runs-attempt _ w true _ (run_update-Runs (logical_update id p cancelled tp) w))
        λ w' e' _.
          subst
            (λ fs. Runs (for_each_logical E id ps cancelled tp) w' true (record t { files = fs }))
            (cancel_rows-cons id p ps tp t.files)
            (for_each_logical-Runs id ps tp w' _ (
              e'
              ∙ ap {A = Tables}
                  (λ u. record u {
                    files = map (update_where (is_row id p) (finish cancelled tp)) u.files;
                  })
                  e))

  pub update_all_logical-Runs :
      (id : StageId) (ps : List LogicalPath) (tp : TimePoint) (w : World) (t : Tables)
      → w.tables ≡ t
      → Runs (update_all_logical E id ps cancelled tp) w true (cancel_rows id ps tp t)
  unfolding update_all_logical
  update_all_logical-Runs id ps tp w t e =
      Runs-transaction E quiet _ w true _ λ w' e' _. for_each_logical-Runs id ps tp w' t (e' ∙ e)

  pub update_physical-Runs :
      (p : PhysicalPath) (s : State) (tp : TimePoint) (w : World) (t : Tables)
      → w.tables ≡ t
      → Runs (update_physical E p s tp) w true (move_rows p s tp t)
  unfolding update_physical
  update_physical-Runs p s tp w t e =
      subst (λ u. Runs (update_physical E p s tp) w true (move_rows p s tp u)) e
        (Runs-attempt _ w true _ (run_update-Runs (physical_update p s tp) w))

  for_each_physical-Runs :
      (ps : List PhysicalPath) (s : State) (tp : TimePoint) (w : World) (t : Tables)
      → w.tables ≡ t
      → Runs (for_each_physical E ps s tp) w true (move_all ps s tp t)
  unfolding for_each_physical
  for_each_physical-Runs [] s tp w t e = subst (Runs (pure true) w true) e (Runs-pure w true)
  for_each_physical-Runs (p ∷ ps) s tp w t e =
      Runs-bind _ _ w true true _ _ (update_physical-Runs p s tp w t e)
        λ w' e' _. for_each_physical-Runs ps s tp w' _ e'

  pub update_all_physical-Runs :
      (ps : List PhysicalPath) (s : State) (tp : TimePoint) (w : World) (t : Tables)
      → w.tables ≡ t
      → Runs (update_all_physical E ps s tp) w true (move_all ps s tp t)
  unfolding update_all_physical
  update_all_physical-Runs ps s tp w t e =
      Runs-transaction E quiet _ w true _ λ w' e' _. for_each_physical-Runs ps s tp w' t (e' ∙ e)

  update_path_states-Runs :
      (ps : List (PhysicalPath × State)) (tp : TimePoint) (w : World) (t : Tables)
      → w.tables ≡ t
      → Runs (update_path_states E ps tp) w true (move_each ps tp t)
  unfolding update_path_states
  update_path_states-Runs [] tp w t e = subst (Runs (pure true) w true) e (Runs-pure w true)
  update_path_states-Runs ((p, s) ∷ ps) tp w t e =
      Runs-bind _ _ w true true _ _ (update_physical-Runs p s tp w t e)
        λ w' e' _. update_path_states-Runs ps tp w' _ e'

  update_stage_opt-Runs :
      (s : Option StageEntity) (w : World) (t : Tables)
      → w.tables ≡ t
      → Runs (update_stage_opt E s) w true (replace s t)
  unfolding update_stage_opt update_stage_entity
  update_stage_opt-Runs none w t e = subst (Runs (pure true) w true) e (Runs-pure w true)
  update_stage_opt-Runs (some entity) w t e =
      Runs-bind _ _ w tt true _ _
        (Runs-execute E quiet _ w (replace (some entity) t)
          (ap (λ u. some (replace (some entity) u)) e))
        λ w' e' _. subst (Runs (pure true) w' true) e' (Runs-pure w' true)

  pub update_stage-Runs :
      (u : StageUpdate) (w : World) (t : Tables)
      → w.tables ≡ t
      → Runs (update_stage E u) w true (move_each u.files u.tp (replace u.stage t))
  unfolding update_stage
  update_stage-Runs u w t e = Runs-transaction E quiet _ w true _ λ w1 e1 _.
      Runs-bind _ _ w1 true true _ _ (update_stage_opt-Runs u.stage w1 t (e1 ∙ e))
        λ w2 e2 _. update_path_states-Runs u.files u.tp w2 _ e2
