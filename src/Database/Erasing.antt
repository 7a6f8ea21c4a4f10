-- ===== src/Database/Erasing.antt =====
-- SociDatabase::erase: with no failing statement, and with one that fails in the middle.
use storm_tape.Prelude.{
  ℕ, ◌+◌, ◌≡◌, ◌≢◌, refl, ap, subst, true, false, not, none, some, List, [], ◌∷◌, arith, keep,
  length, eqb, ◌==◌, ==_iff,
}
use storm_tape.Model.{StageId}
use storm_tape.Database.Session.{
  World, Tables, StageEntity, ◌>>=◌, Engine, ok, pure, execute, query, tick, attempt,
}
use storm_tape.Database.Sql.{is_stage, in_stage, find_stage}
use storm_tape.Database.Runs.{
  IsQuiet, Runs, Runs-pure, Runs-bind, Runs-query, Runs-execute, Runs-attempt,
}
use storm_tape.Database.Lookup.{find_in}
use storm_tape.Database.{erase, erase_rows}

abbrev pub how_many : StageId → Tables → ℕ
how_many id t = length (keep (is_stage id) t.stages)

-- The tables without the files of the stage, and without the stage.
abbrev pub without_files : StageId → Tables → Tables
without_files id t = record t { files = keep (λ f. not (in_stage id f)) t.files }

abbrev pub without : StageId → Tables → Tables
without id t = record {
  stages = keep (λ s. not (is_stage id s)) t.stages;
  files = keep (λ f. not (in_stage id f)) t.files;
}

module _ (E : Engine) (quiet : IsQuiet E) where
  -- The stage and its files are gone.
  pub erase-Runs :
      (id : StageId) (w : World)
      → eqb (how_many id w.tables) 0 ≡ false
      → Runs (erase E id) w true (without id w.tables)
  unfolding erase erase_rows
  erase-Runs id w h = Runs-attempt _ w true _ (
      Runs-bind (query E (how_many id)) _ w (how_many id w.tables) true w.tables _
        (Runs-query E quiet (how_many id) w)
        λ w1 e1 _. rw h (
          Runs-bind _ _ w1 tt true (without_files id w.tables) _
            (Runs-execute E quiet _ w1 _ (ap (λ t. some (without_files id t)) e1))
            λ w2 e2 _.
              Runs-bind _ _ w2 tt true (without id w.tables) _
                (Runs-execute E quiet _ w2 _ (
                  ap {A = Tables}
                    (λ t. some (record t { stages = keep (λ s. not (is_stage id s)) t.stages }))
                    e2))
                λ w3 e3 _. subst (Runs (pure true) w3 true) e3 (Runs-pure w3 true)))

  pub erase-missing :
      (id : StageId) (w : World)
      → eqb (how_many id w.tables) 0 ≡ true
      → Runs (erase E id) w false w.tables
  unfolding erase erase_rows
  erase-missing id w h = Runs-attempt _ w false _ (
      Runs-bind (query E (how_many id)) _ w (how_many id w.tables) false w.tables _
        (Runs-query E quiet (how_many id) w)
        λ w1 e1 _. rw h (subst (Runs (pure false) w1 false) e1 (Runs-pure w1 false)))

-- If the third statement of erase fails, erase returns false, the files are gone, and the stage stays.
pub erase-interrupted :
    (E : Engine) (id : StageId) (w : World)
    → eqb (how_many id w.tables) 0 ≡ false
    → E.fails w.issued ≡ false
    → E.fails (w.issued + 1) ≡ false
    → E.fails (w.issued + 1 + 1) ≡ true
    → (after : World) × (erase E id w ≡ (ok false, after))
      × (after.tables ≡ without_files id w.tables)
unfolding erase attempt erase_rows ◌>>=◌ query execute pure
erase-interrupted E id w h a b c =
    (tick (record (tick (tick w)) { tables = without_files id w.tables }), rw (a, h, b, c), refl)

-- A stage that is not in the table is not found, unless the id is empty, which the entity that `find`
-- starts from has.
find_stage-gone :
    (id : StageId) (ss : List StageEntity)
    → id ≢ []
    → (find_stage id (keep (λ s. not (is_stage id s)) ss)).id == id ≡ false
unfolding find_stage
find_stage-gone id [] n = ground (arith, ==_iff [] id)
find_stage-gone id (s ∷ ss) n = ground (arith, find_stage-gone id ss n)

pub find-without : (id : StageId) (t : Tables) → id ≢ [] → find_in id (without id t) ≡ none
find-without id t n = rw (find_stage-gone id t.stages n)
