-- ===== src/Service/Kept.antt =====
-- What calls of take_over leave alone, for one stage: its row, and that it has files, none of which is
-- being recalled.
use storm_tape.Prelude.{
  ℕ, ◌<◌, ◌≡◌, ◌≢◌, refl, sym, ap, subst, ◌∙◌, true, false, List, [], ◌∷◌, map, arith, All, keep,
  take, ◌==◌, Bool-cases, inl, inr,
}
use storm_tape.Model.{
  TimePoint, StageId, PhysicalPath, State, submitted, started, cancelled, failed, completed,
}
use storm_tape.Storage.{Storage, value}
use storm_tape.Database.Session.{World, Tables, StageEntity, FileEntity}
use storm_tape.Database.Sql.{paths_in, physical_update, in_stage}
use storm_tape.Database.Runs.{IsQuiet}
use storm_tape.Database.Updates.{run_row, move_all, move_rows}
use storm_tape.Database.Abstract.Changes.{moved-stage}
use storm_tape.Service.{TapeService}
use storm_tape.Service.Recall.{Selection}
use storm_tape.Service.Groups.{taken_tables, groups}
use storm_tape.Service.TakeOver.{take_over-Ran}
use storm_tape.Service.Calls.{serve, run}
use storm_tape.Service.Draining.{all_take_over}

moved-path :
    (p : PhysicalPath) (s : State) (tp : TimePoint) (e : FileEntity)
    → (run_row (physical_update p s tp) e).physical_path ≡ e.physical_path
unfolding physical_update
moved-path p submitted tp e = refl
moved-path p started tp e = ground arith
moved-path p cancelled tp e = ground arith
moved-path p failed tp e = ground arith
moved-path p completed tp e = ground arith

-- No recall runs for a row of the stage.
abbrev pub IsIdle : Storage → StageId → FileEntity → Type 0
IsIdle S id f = in_stage id f ≡ true → S.is_in_progress f.physical_path ≡ value false

-- What take_over keeps of the tables, for one stage.
pub record IsKept (S : Storage) (id : StageId) (ss : List StageEntity) (t : Tables) : Type 0 where
  pub stages : t.stages ≡ ss
  pub some_rows : keep (in_stage id) t.files ≢ []
  pub idle : All (IsIdle S id) t.files

module _ (S : Storage) (id : StageId) (ss : List StageEntity) where
  rows-some :
      (g : FileEntity → FileEntity)
      → ((e : FileEntity) → (g e).stage_id ≡ e.stage_id)
      → (fs : List FileEntity) → keep (in_stage id) fs ≢ []
      → keep (in_stage id) (map g fs) ≢ []
  rows-some g same [] n = n
  rows-some g same (f ∷ fs) n = elim (Bool-cases (in_stage id f)) [
    | inl here ↦ λ e. ground (arith, same f)
    | inr there ↦ rw (same f, there) (rows-some g same fs (rw there at n))
  ]

  map-IsIdle :
      (g : FileEntity → FileEntity)
      → ((e : FileEntity) → (g e).stage_id ≡ e.stage_id)
      → ((e : FileEntity) → (g e).physical_path ≡ e.physical_path)
      → (fs : List FileEntity) → All (IsIdle S id) fs
      → All (IsIdle S id) (map g fs)
  map-IsIdle g same path [] h = tt
  map-IsIdle g same path (f ∷ fs) h = (
    λ m. ap S.is_in_progress (path f) ∙ h.0 (ap (λ i. i == id) (sym (same f)) ∙ m),
    map-IsIdle g same path fs h.1,
  )

  move_all-IsKept :
      (ps : List PhysicalPath) (s : State) (tp : TimePoint) (t : Tables)
      → IsKept S id ss t
      → IsKept S id ss (move_all ps s tp t)
  move_all-IsKept [] s tp t k = k
  move_all-IsKept (p ∷ ps) s tp t k = move_all-IsKept ps s tp (move_rows p s tp t) (record {
    stages = k.stages;
    some_rows = rows-some _ (moved-stage p s tp) t.files k.some_rows;
    idle = map-IsIdle _ (moved-stage p s tp) (moved-path p s tp) t.files k.idle;
  })

  taken_tables-IsKept :
      (g : Selection) (now : TimePoint) (t : Tables)
      → IsKept S id ss t
      → IsKept S id ss (taken_tables g now t)
  taken_tables-IsKept g now t k = move_all-IsKept g.need_recall started now _ (
      move_all-IsKept g.the_rest failed now _ (
        move_all-IsKept g.on_disk_now completed now _
          (move_all-IsKept g.in_progress started now t k)))

  pub run-IsKept :
      (T : TapeService) (quiet : IsQuiet T.db) (cs : List (ℕ × TimePoint)) (w : World)
      → All (λ c. (0 < c.0) × (0 < c.1)) cs
      → IsKept S id ss w.tables
      → IsKept S id ss (run T (all_take_over cs) w).tables
  unfolding run serve
  run-IsKept T quiet [] w h k = k
  run-IsKept T quiet ((n, now) ∷ cs) w h k =
      let ran = take_over-Ran T quiet n now w (ground (arith, h.0.0)) in
      run-IsKept T quiet cs _ h.1 (
        subst (IsKept S id ss) (sym (ap (λ x. x.1.tables) ran.result ∙ ran.tables)) (
          taken_tables-IsKept
            (groups T w.set_calls (take n (T.db.row_order (paths_in submitted w.tables)))) now
            w.tables k))
