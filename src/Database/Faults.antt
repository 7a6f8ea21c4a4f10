-- ===== src/Database/Faults.antt =====
-- What is left when statements fail: insert is atomic, erase is not, and the bulk updates do not report.
use storm_tape.Prelude.{
  ℕ, ◌+◌, ◌≡◌, ◌≢◌, refl, length, if◌then◌else◌, sym, ap, ◌∙◌, ◌⊎◌, inl, inr, Bool, true, false,
  Option, some, List, [], ◌∷◌, ◌++◌, map, arith, Bool-cases, Option-cases, append-nil, append_assoc,
}
use storm_tape.Model.{
  TimePoint, StageId, PhysicalPath, State, submitted, started, cancelled, failed, completed, File,
  StageRequest,
}
use storm_tape.Database.Updates.{move_rows, move_all}
use storm_tape.Database.Session.{
  Engine, Tables, World, FileEntity, StageEntity, Db, ok, err, soci_error, pure, execute,
  transaction, attempt, ◌>>=◌, tick,
}
use storm_tape.Database.Sql.{insert_stage, insert_file, to_entity, physical_update}
use storm_tape.Database.Runs.{bind_ok, bind_err}
use storm_tape.Database.RoundTrip.{with_stage, stage_row}
use storm_tape.Database.{
  insert, insert_rows, insert_files, run_update, update_physical, for_each_physical,
  update_all_physical,
}

abbrev added : List FileEntity → Tables → Tables
added fs t = record t { files = t.files ++ fs }

physical_update-some :
    (p : PhysicalPath) (s : State) (tp : TimePoint)
    → s ≢ submitted
    → (g : FileEntity → FileEntity) × (physical_update p s tp ≡ some g)
unfolding physical_update
physical_update-some p submitted tp n = absurd (n refl)
physical_update-some p started tp n = (_, refl)
physical_update-some p cancelled tp n = (_, refl)
physical_update-some p failed tp n = (_, refl)
physical_update-some p completed tp n = (_, refl)

module _ (E : Engine) where
  -- A statement that writes is executed or throws.
  execute_cases :
      (f : Tables → Option Tables) (w : World)
      → ((t : Tables) × (f w.tables ≡ some t)
          × (execute E f w ≡ (ok tt, record (tick w) { tables = t })))
        ⊎ (execute E f w ≡ (err soci_error, tick w))
  unfolding execute
  execute_cases f w = elim (Bool-cases (E.fails w.issued)) [
    | inl bad ↦ inr (rw bad)
    | inr good ↦ elim (Option-cases (f w.tables)) [
      | inl clash ↦ inr (rw (good, clash))
      | inr (t, e) ↦ inl (t, e, rw (good, e))
    ]
  ]

  insert_file-added :
      (f : FileEntity) (t u : Tables) → insert_file f t ≡ some u → u ≡ added (f ∷ []) t
  unfolding insert_file
  insert_file-added f t u e = ground arith

  insert_stage-added :
      (s : StageEntity) (t u : Tables)
      → insert_stage s t ≡ some u
      → u ≡ record t { stages = t.stages ++ s ∷ [] }
  unfolding insert_stage
  insert_stage-added s t u e = ground arith

  insert_files_cases :
      (id : StageId) (fs : List File) (w : World)
      → ((w' : World) × (insert_files E id fs w ≡ (ok true, w'))
          × (w'.tables ≡ added (map (to_entity id) fs) w.tables))
        ⊎ ((w' : World) × (insert_files E id fs w ≡ (err soci_error, w')))
  unfolding insert_files
  insert_files_cases id [] w = inl (
    w,
    unfold pure in refl,
    ap (λ fs. record w.tables { files = fs }) (sym (append-nil w.tables.files)),
  )
  insert_files_cases id (f ∷ fs) w = elim (execute_cases (insert_file (to_entity id f)) w) [
    | inr thrown ↦ inr (tick w, bind_err _ _ w (tick w) soci_error thrown)
    | inl (t, e, done) ↦ elim (insert_files_cases id fs (record (tick w) { tables = t })) [
      | inr (w', thrown) ↦ inr (w', bind_ok _ _ w _ tt done ∙ thrown)
      | inl (w', rest, tables) ↦ inl (
        w',
        bind_ok _ _ w _ tt done ∙ rest,
        tables
            ∙ ap (added (map (to_entity id) fs)) (insert_file-added (to_entity id f) w.tables t e)
            ∙ ap (λ fs. record w.tables { files = fs })
                (append_assoc w.tables.files (to_entity id f ∷ []) (map (to_entity id) fs)),
      )
    ]
  ]

  abbrev Outcome : StageId → StageRequest → Db Bool → World → Type 0
  Outcome id r m w =
      ((w' : World) × (m w ≡ (ok true, w')) × (w'.tables ≡ with_stage id r w.tables))
      ⊎ ((w' : World) × (m w ≡ (err soci_error, w')))

  insert_rows_cases :
      (id : StageId) (r : StageRequest) (w : World) → Outcome id r (insert_rows E id r) w
  unfolding insert_rows
  insert_rows_cases id r w = elim (execute_cases (insert_stage (stage_row id r)) w) [
    | inr thrown ↦ inr (tick w, bind_err _ _ w (tick w) soci_error thrown)
    | inl (t, e, done) ↦ elim (insert_files_cases id r.files (record (tick w) { tables = t })) [
      | inr (w', thrown) ↦ inr (w', bind_ok _ _ w _ tt done ∙ thrown)
      | inl (w', rest, tables) ↦ inl (
        w',
        bind_ok _ _ w _ tt done ∙ rest,
        tables
            ∙ ap (added (map (to_entity id) r.files))
                (insert_stage-added (stage_row id r) w.tables t e),
      )
    ]
  ]

  -- Whatever fails, insert either returns true and has added the stage with all its files, or returns
  -- false and has changed no table.
  pub insert_atomic :
      (id : StageId) (r : StageRequest) (w : World)
      → ((insert E id r w).0 ≡ ok true) × ((insert E id r w).1.tables ≡ with_stage id r w.tables)
        ⊎ ((insert E id r w).0 ≡ ok false) × ((insert E id r w).1.tables ≡ w.tables)
  unfolding insert attempt transaction
  insert_atomic id r w = elim (Bool-cases (E.fails w.issued)) [
    | inl bad ↦ inr (rw bad, rw bad)
    | inr good ↦ elim (insert_rows_cases id r (tick w)) [
      | inr (w', e) ↦ inr (rw (good, e), rw (good, e))
      | inl (w', e, t) ↦ elim (Bool-cases (E.fails w'.issued)) [
        | inl bad ↦ inr (rw (good, e, bad), rw (good, e, bad))
        | inr fine ↦ inl (rw (good, e, fine), rw (good, e, fine) t)
      ]
    ]
  ]

  -- Of the paths of a bulk update those whose statement succeeds, the first one being the n-th.
  abbrev pub unfailed : ℕ → List PhysicalPath → List PhysicalPath
  unfailed n [] = []
  unfailed n (p ∷ ps) = let rest = unfailed (n + 1) ps in if E.fails n then rest else p ∷ rest

  -- The world after the statement of one path, which may fail.
  abbrev lenient : PhysicalPath → State → TimePoint → World → World
  lenient p s tp w = record (tick w) {
    tables = if E.fails w.issued then w.tables else move_rows p s tp w.tables;
  }

  update_physical-lenient :
      (p : PhysicalPath) (s : State) (tp : TimePoint) (w : World)
      → s ≢ submitted
      → (b : Bool) × (update_physical E p s tp w ≡ (ok b, lenient p s tp w))
  unfolding update_physical attempt run_update execute ◌>>=◌ pure
  update_physical-lenient p s tp w n =
      let (g, e) = physical_update-some p s tp n in
      elim (Bool-cases (E.fails w.issued)) [
        | inl bad ↦ (false, rw (e, bad))
        | inr good ↦ (true, rw (e, good))
      ]

  survivors-moved :
      (p : PhysicalPath) (ps : List PhysicalPath) (s : State) (tp : TimePoint) (n : ℕ) (t : Tables)
      → move_all (unfailed (n + 1) ps) s tp (if E.fails n then t else move_rows p s tp t)
        ≡ move_all (unfailed n (p ∷ ps)) s tp t
  survivors-moved p ps s tp n t = elim (Bool-cases (E.fails n)) [
    | inl bad ↦ rw bad
    | inr good ↦ rw good
  ]

  for_each_physical-lenient :
      (ps : List PhysicalPath) (s : State) (tp : TimePoint) (w : World)
      → s ≢ submitted
      → (after : World) × (for_each_physical E ps s tp w ≡ (ok true, after))
        × (after.tables ≡ move_all (unfailed w.issued ps) s tp w.tables)
        × (after.issued ≡ w.issued + length ps)
  unfolding for_each_physical
  for_each_physical-lenient [] s tp w n = (w, unfold pure in refl, refl, omega arith)
  for_each_physical-lenient (p ∷ ps) s tp w n =
      let (b, e) = update_physical-lenient p s tp w n in
      let (after, e', t, i) = for_each_physical-lenient ps s tp (lenient p s tp w) n in
      (
        after,
        bind_ok _ _ w _ b e ∙ e',
        t ∙ survivors-moved p ps s tp w.issued w.tables,
        omega (arith, i),
      )

  -- If no BEGIN or COMMIT fails, a bulk update to a state other than SUBMITTED returns true, whatever
  -- statements in between fail: it has updated the rows of the paths whose statement succeeded, and
  -- those of the other paths are as they were.
  pub update_all_physical-silent :
      (ps : List PhysicalPath) (s : State) (tp : TimePoint) (w : World)
      → s ≢ submitted
      → E.fails w.issued ≡ false
      → E.fails (w.issued + 1 + length ps) ≡ false
      → (after : World) × (update_all_physical E ps s tp w ≡ (ok true, after))
        × (after.tables ≡ move_all (unfailed (w.issued + 1) ps) s tp w.tables)
  unfolding update_all_physical transaction
  update_all_physical-silent ps s tp w n begins commits =
      let (after, e, t, i) = for_each_physical-lenient ps s tp (tick w) n in
      let commits' : E.fails after.issued ≡ false = rw i commits in
      (tick after, rw (begins, e, commits'), t)
