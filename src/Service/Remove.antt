-- ===== src/Service/Remove.antt =====
-- TapeService::erase: with no failing statement, and with one that fails in the middle.
use storm_tape.Prelude.{◌+◌, ◌≡◌, ◌≢◌, refl, subst, true, false, none, [], eqb}
use storm_tape.Model.{StageId}
use storm_tape.Database
use storm_tape.Database.Session.{World, stage_not_found, err, pure, raise}
use storm_tape.Database.Runs.{
  IsQuiet, Runs, Runs-pure, Runs-bind, Throws, Throws-bind, Throws-raise, bind_ok,
}
use storm_tape.Database.Lookup.{find_in}
use storm_tape.Database.Erasing.{
  how_many, without, without_files, erase-Runs, erase-missing, erase-interrupted, find-without,
}
use storm_tape.Service.{TapeService, erase}

-- If no statement fails, erase of a stored stage whose id is not empty leaves neither the stage nor
-- its files, and the stage is no longer found.
pub erase-Removes :
    (T : TapeService) (quiet : IsQuiet T.db) (id : StageId) (w : World)
    → id ≢ []
    → eqb (how_many id w.tables) 0 ≡ false
    → Runs (erase T id) w tt (without id w.tables) × (find_in id (without id w.tables) ≡ none)
unfolding erase
erase-Removes T quiet id w n h = (
  Runs-bind _ _ w true tt _ _ (erase-Runs T.db quiet id w h)
      (λ w' e _. subst (Runs (pure tt) w' tt) e (Runs-pure w' tt)),
  find-without id w.tables n,
)

-- If no statement fails, erase of a stage that is not stored throws StageNotFound and changes nothing.
pub erase-missing_stage :
    (T : TapeService) (quiet : IsQuiet T.db) (id : StageId) (w : World)
    → eqb (how_many id w.tables) 0 ≡ true
    → Throws (erase T id) w (stage_not_found id)
unfolding erase
erase-missing_stage T quiet id w h =
    Throws-bind _ _ w false _ _ refl (erase-missing T.db quiet id w h)
      λ w' _ _. Throws-raise w' (stage_not_found id)

-- If the third statement of erase fails, and the two before it do not, for a stage that is stored, the caller is told that there is
-- no such stage, while the rows of its files are gone and its own row stays.
pub erase-half_done :
    (T : TapeService) (id : StageId) (w : World)
    → eqb (how_many id w.tables) 0 ≡ false
    → T.db.fails w.issued ≡ false
    → T.db.fails (w.issued + 1) ≡ false
    → T.db.fails (w.issued + 1 + 1) ≡ true
    → (after : World) × (erase T id w ≡ (err (stage_not_found id), after))
      × (after.tables ≡ without_files id w.tables)
unfolding erase raise
erase-half_done T id w h a b c =
    let (after, e, t) = erase-interrupted T.db id w h a b c in
    (after, bind_ok (Database.erase T.db id) _ w after false e, t)
