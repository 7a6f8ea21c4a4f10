-- ===== src/Database/Invariant.antt =====
-- Every operation of SociDatabase that the service uses keeps what its statements allow for (Closed),
-- whatever statements fail on the way.
use storm_tape.Prelude.{ℕ, ◌<◌, ◌≡◌, true, Option, none, some, List, [], ◌∷◌, refl}
use storm_tape.Model.{TimePoint, StageId, LogicalPath, PhysicalPath, State, cancelled}
use mathlib.Core.Option.{some-injective}
use storm_tape.Database.Session.{Engine, FileEntity, StageEntity, Tables}
use storm_tape.Database.Sql.{update_files, logical_update, physical_update}
use storm_tape.Database.Keeps.{
  Keeps, keeps_rules, Keeps-bind, Keeps-pure, Keeps-transaction, Keeps-attempt, Keeps-execute,
}
use storm_tape.Database.Closed.{Closed}
use storm_tape.Database.{
  StageUpdate, find, find_incomplete_stages, run_update, update_logical, update_physical,
  for_each_logical, for_each_physical, update_all_logical, update_all_physical, update_path_states,
  update_stage_opt, update_stage, count_files, get_files,
}

module _ {P : Tables → Type 0} (c : Closed P) (E : Engine) where
  pub find-Keeps : (id : StageId) → Keeps P (find E id)
  unfolding find
  find-Keeps id = search keeps_rules depth 12

  -- A statement that updates files, where there is one.
  run_update-Keeps :
      (o : Option (FileEntity → FileEntity))
      → ((g : FileEntity → FileEntity)
          → o ≡ some g
          → (t t' : Tables) → update_files g t ≡ some t'
          → P t
          → P t')
      → Keeps P (run_update E o)
  unfolding run_update
  run_update-Keeps none q = Keeps-pure true
  run_update-Keeps (some g) q = Keeps-bind _ _ (Keeps-execute E _ (q g refl)) (λ _. Keeps-pure true)

  cancel_one-Keeps :
      (id : StageId) (p : LogicalPath) (tp : TimePoint)
      → 0 < tp
      → Keeps P (update_logical E id p cancelled tp)
  unfolding update_logical logical_update
  cancel_one-Keeps id p tp h = Keeps-attempt _ (
      run_update-Keeps (logical_update id p cancelled tp) λ g e t t' e' v.
        rw (← some-injective _ _ e', ← some-injective _ _ e) (c.cancel id p tp h t v))

  for_each_logical-Keeps :
      (id : StageId) (ps : List LogicalPath) (tp : TimePoint)
      → 0 < tp
      → Keeps P (for_each_logical E id ps cancelled tp)
  unfolding for_each_logical
  for_each_logical-Keeps id [] tp h = Keeps-pure true
  for_each_logical-Keeps id (p ∷ ps) tp h =
      Keeps-bind _ _ (cancel_one-Keeps id p tp h) (λ _. for_each_logical-Keeps id ps tp h)

  pub update_all_logical-Keeps :
      (id : StageId) (ps : List LogicalPath) (tp : TimePoint)
      → 0 < tp
      → Keeps P (update_all_logical E id ps cancelled tp)
  unfolding update_all_logical
  update_all_logical-Keeps id ps tp h = Keeps-transaction E _ (for_each_logical-Keeps id ps tp h)

  update_physical-Keeps :
      (p : PhysicalPath) (state : State) (tp : TimePoint)
      → 0 < tp
      → Keeps P (update_physical E p state tp)
  unfolding update_physical
  update_physical-Keeps p state tp h = Keeps-attempt _ (
      run_update-Keeps (physical_update p state tp)
        λ g e t t' e' v. rw (← some-injective _ _ e') (c.move p state tp g h e t v))

  for_each_physical-Keeps :
      (ps : List PhysicalPath) (state : State) (tp : TimePoint)
      → 0 < tp
      → Keeps P (for_each_physical E ps state tp)
  unfolding for_each_physical
  for_each_physical-Keeps [] state tp h = Keeps-pure true
  for_each_physical-Keeps (p ∷ ps) state tp h =
      Keeps-bind _ _ (update_physical-Keeps p state tp h)
        (λ _. for_each_physical-Keeps ps state tp h)

  pub update_all_physical-Keeps :
      (ps : List PhysicalPath) (state : State) (tp : TimePoint)
      → 0 < tp
      → Keeps P (update_all_physical E ps state tp)
  unfolding update_all_physical
  update_all_physical-Keeps ps state tp h =
      Keeps-transaction E _ (for_each_physical-Keeps ps state tp h)

  update_path_states-Keeps :
      (cs : List (PhysicalPath × State)) (tp : TimePoint)
      → 0 < tp
      → Keeps P (update_path_states E cs tp)
  unfolding update_path_states
  update_path_states-Keeps [] tp h = Keeps-pure true
  update_path_states-Keeps ((p, state) ∷ cs) tp h =
      Keeps-bind _ _ (update_physical-Keeps p state tp h) (λ _. update_path_states-Keeps cs tp h)

  update_stage_opt-Keeps : (o : Option StageEntity) → Keeps P (update_stage_opt E o)
  unfolding update_stage_opt
  update_stage_opt-Keeps none = Keeps-pure true
  update_stage_opt-Keeps (some s) =
      Keeps-bind _ _ (Keeps-execute E _ λ t t' e v. rw (← some-injective _ _ e) (c.replace s t v))
        (λ _. Keeps-pure true)

  pub update_stage-Keeps : (u : StageUpdate) → 0 < u.tp → Keeps P (update_stage E u)
  unfolding update_stage
  update_stage-Keeps u h = Keeps-transaction E _ (
      Keeps-bind _ _ (update_stage_opt-Keeps u.stage)
        (λ _. update_path_states-Keeps u.files u.tp h))

  pub count_files-Keeps : (s : State) → Keeps P (count_files E s)
  unfolding count_files
  count_files-Keeps s = search keeps_rules

  pub get_files-Keeps : (s : State) (n : ℕ) → Keeps P (get_files E s n)
  unfolding get_files
  get_files-Keeps s n = search keeps_rules

  pub find_incomplete_stages-Keeps : Keeps P (find_incomplete_stages E)
  unfolding find_incomplete_stages
  find_incomplete_stages-Keeps = search keeps_rules depth 8
