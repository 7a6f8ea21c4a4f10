-- ===== src/Database/Abstract/Methods.antt =====
-- Each method of SociDatabase does what the abstract store promises, when no statement fails.
use storm_tape.Prelude.{
  ◌≡◌, refl, ap, subst, ◌∙◌, Bool, true, false, some, List, [], ◌∷◌, arith, Bool-cases, inl, inr,
}
use storm_tape.Model.{TimePoint, StageId, LogicalPath, State, StageRequest}
use storm_tape.Database
use storm_tape.Database.{for_each_logical}
use storm_tape.Database.Interface.{Interface, soci_database}
use storm_tape.Database.Session.{Engine, World, Tables, Db, pure, ◌>>=◌}
use storm_tape.Database.Sql.{has_stage, is_row, update_where, logical_update}
use storm_tape.Database.Runs.{IsQuiet, Runs, Runs-pure, Runs-bind, Runs-attempt, Runs-transaction}
use storm_tape.Database.Lookup.{find_in, find-Runs}
use storm_tape.Database.RoundTrip.{with_stage, insert-Runs}
use storm_tape.Database.Updates.{
  run_update-Runs, update_physical-Runs, update_all_physical-Runs, update_stage-Runs, move_rows,
  move_all, move_each, replace,
}
use storm_tape.Database.Erasing.{without, erase-Runs, erase-missing}
use storm_tape.Database.Owned.{IsOwned}
use storm_tape.Database.Abstract.{
  Op, Reply, insert, find, update_state, update_logical, update_all_logical, update_physical,
  update_all_physical, update_stage, erase, done, found, view, promise, everywhere, in_turn,
  repeats,
}
use storm_tape.Database.Abstract.Views.{view-with_stage}
use storm_tape.Database.Abstract.Removals.{view-without, rows-of_missing}
use storm_tape.Database.Abstract.Changes.{
  moved-stage, relabelled-stage, stage_rows, stage_all, view-move_all, view-move_each,
  view-replaced, view-stage_rows, view-stage_all, view-state, each_physical,
}
use storm_tape.Database.Abstract.Refusals.{insert-taken, insert-repeated, DistinctPaths-of_repeats}
use storm_tape.Database.Abstract.Owning.{
  map-IsOwned, move_all-IsOwned, move_each-IsOwned, stage_all-IsOwned, replace-IsOwned,
  with_stage-IsOwned, without-IsOwned,
}
use storm_tape.Database.Abstract.Finding.{forget_found, found-eq-answer, how_many-zero}

reply : Db Bool → Db Reply
reply m = do b ← m; pure (done b)

module _ (D : Interface) where
  -- The method of a database, its answer up to the order of the files.
  unfoldable pub perform : Op → Db Reply
  unfolding reply
  perform (insert id r) = reply (D.insert id r)
  perform (find id) = do o ← D.find id; pure (found (forget_found o))
  perform (update_state id p s) = reply (D.update_state id p s)
  perform (update_logical id p s tp) = reply (D.update_logical id p s tp)
  perform (update_all_logical id ps s tp) = reply (D.update_all_logical id ps s tp)
  perform (update_physical p s tp) = reply (D.update_physical p s tp)
  perform (update_all_physical ps s tp) = reply (D.update_all_physical ps s tp)
  perform (update_stage u) = reply (D.update_stage u)
  perform (erase id) = reply (D.erase id)

-- The operation answers as promised, and leaves tables for the promised store, with no file without
-- its stage.
abbrev pub Refines : Interface → Op → World → Type 0
Refines D op w =
    (t : Tables) × Runs (perform D op) w (promise op (view w.tables)).0 t
    × (view t ≡ (promise op (view w.tables)).1)
    × IsOwned t

reply-Runs :
    (m : Db Bool) (w : World) (b : Bool) (t : Tables) → Runs m w b t → Runs (reply m) w (done b) t
unfolding reply
reply-Runs m w b t r =
    Runs-bind _ _ w b _ t t r λ w' e _. subst (Runs (pure (done b)) w' (done b)) e (Runs-pure w' _)

module _ (E : Engine) (quiet : IsQuiet E) where
  insert-Refines :
      (id : StageId) (r : StageRequest) (w : World)
      → IsOwned w.tables
      → Refines (soci_database E) (insert id r) w
  unfolding perform promise view
  insert-Refines id r w h = elim (Bool-cases (has_stage id w.tables.stages)) [
    | inl taken ↦
        rw taken (w.tables, reply-Runs _ w false _ (insert-taken E quiet id r w taken), refl, h)
    | inr new ↦
        let none_left = rows-of_missing id w.tables.stages w.tables.files new h in
        elim (Bool-cases (repeats r.files)) [
          | inl twice ↦
              rw (new, twice)
                (
                  w.tables,
                  reply-Runs _ w false _ (insert-repeated E quiet id r w new twice),
                  refl,
                  h,
                )
          | inr once ↦
              rw (new, once)
                (
                  with_stage id r w.tables,
                  reply-Runs _ w true _ (
                      insert-Runs E quiet id r w (record {
                        stage = new;
                        files = none_left;
                        paths = DistinctPaths-of_repeats r.files once;
                      })),
                  unfold view in view-with_stage id r w.tables new none_left,
                  with_stage-IsOwned id r w.tables h,
                )
        ]
  ]

  find-Refines :
      (id : StageId) (w : World) → IsOwned w.tables → Refines (soci_database E) (find id) w
  unfolding perform promise
  find-Refines id w h = (
    w.tables,
    subst (λ a. Runs (perform (soci_database E) (find id)) w (found a) w.tables)
        (found-eq-answer id w.tables h)
        (Runs-bind _ _ w (find_in id w.tables) _ _ _ (find-Runs E quiet id w)
          λ w' e _. subst (Runs _ w' _) e (Runs-pure w' _)),
    refl,
    h,
  )

  erase-Refines :
      (id : StageId) (w : World) → IsOwned w.tables → Refines (soci_database E) (erase id) w
  unfolding perform promise view
  erase-Refines id w h = elim (Bool-cases (has_stage id w.tables.stages)) [
    | inl here ↦ rw here (
      without id w.tables,
      reply-Runs _ w true _ (erase-Runs E quiet id w (rw (how_many-zero id w.tables, here) refl)),
      unfold view in view-without id w.tables,
      without-IsOwned id w.tables h,
    )
    | inr missing ↦ rw missing (
      w.tables,
      reply-Runs _ w false _
          (erase-missing E quiet id w (rw (how_many-zero id w.tables, missing) refl)),
      refl,
      h,
    )
  ]

  for_each_logical-Runs :
      (id : StageId) (ps : List LogicalPath) (s : State) (tp : TimePoint) (w : World) (t : Tables)
      → w.tables ≡ t
      → Runs (for_each_logical E id ps s tp) w true (stage_all id ps s tp t)
  unfolding for_each_logical Database.update_logical
  for_each_logical-Runs id [] s tp w t e = subst (Runs (pure true) w true) e (Runs-pure w true)
  for_each_logical-Runs id (p ∷ ps) s tp w t e =
      Runs-bind _ _ w true true (stage_rows id p s tp t) _
        (subst (λ u. Runs (Database.update_logical E id p s tp) w true (stage_rows id p s tp u)) e
          (Runs-attempt _ w true _ (run_update-Runs E quiet (logical_update id p s tp) w)))
        λ w' e' _. for_each_logical-Runs id ps s tp w' _ e'

  -- With no failing statement, each method refines its promise: it answers as the abstract store does
  -- and leaves tables that stand for the changed store, if before no file was without its stage.
  pub perform-Refines : (op : Op) (w : World) → IsOwned w.tables → Refines (soci_database E) op w
  unfolding perform promise Database.update_state Database.update_logical
      Database.update_all_logical
  perform-Refines (insert id r) w h = insert-Refines id r w h
  perform-Refines (find id) w h = find-Refines id w h
  perform-Refines (update_state id p s) w h = (
    _,
    reply-Runs _ w true _ (
        Runs-attempt _ w true _ (
          run_update-Runs E quiet (some (update_where (is_row id p) (λ f. record f { state = s })))
            w)),
    view-state id p s w.tables,
    map-IsOwned w.tables.stages _ (λ e. ground arith) w.tables.files h,
  )
  perform-Refines (update_logical id p s tp) w h = (
    stage_rows id p s tp w.tables,
    reply-Runs _ w true _
        (Runs-attempt _ w true _ (run_update-Runs E quiet (logical_update id p s tp) w)),
    view-stage_rows id p s tp w.tables,
    map-IsOwned w.tables.stages _ (relabelled-stage id p s tp) w.tables.files h,
  )
  perform-Refines (update_all_logical id ps s tp) w h = (
    stage_all id ps s tp w.tables,
    reply-Runs _ w true _ (
        Runs-transaction E quiet _ w true _
          λ w' e _. for_each_logical-Runs id ps s tp w' w.tables e),
    view-stage_all id ps s tp w.tables,
    stage_all-IsOwned id ps s tp w.tables h,
  )
  perform-Refines (update_physical p s tp) w h = (
    move_rows p s tp w.tables,
    reply-Runs _ w true _ (update_physical-Runs E quiet p s tp w w.tables refl),
    view-move_all (p ∷ []) s tp w.tables,
    map-IsOwned w.tables.stages _ (moved-stage p s tp) w.tables.files h,
  )
  perform-Refines (update_all_physical ps s tp) w h = (
    move_all ps s tp w.tables,
    reply-Runs _ w true _ (update_all_physical-Runs E quiet ps s tp w w.tables refl),
    view-move_all ps s tp w.tables,
    move_all-IsOwned ps s tp w.tables h,
  )
  perform-Refines (update_stage u) w h = (
    move_each u.files u.tp (replace u.stage w.tables),
    reply-Runs _ w true _ (update_stage-Runs E quiet u w w.tables refl),
    view-move_each u.files u.tp (replace u.stage w.tables)
        ∙ ap (everywhere (in_turn (each_physical u.tp) u.files)) (view-replaced u.stage w.tables),
    move_each-IsOwned u.files u.tp _ (replace-IsOwned u.stage w.tables h),
  )
  perform-Refines (erase id) w h = erase-Refines id w h
