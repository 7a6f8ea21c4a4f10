-- ===== src/Database/Lookup.antt =====
-- find and insert when no statement fails, and that a stage which was inserted is found.

use storm_tape.Prelude.{
  ◌≡◌, refl, subst, true, Option, none, some, List, [], ◌∷◌, map, arith, keep, length, eqb, ◌==◌,
  if◌then◌else◌, Bool-cases, inl, inr,
}
use storm_tape.Model.{StageId, StageRequest}
use storm_tape.Algorithm.{sort}
use storm_tape.Database.Session.{Engine, Tables, World, FileEntity, query}
use storm_tape.Database.Sql.{find_stage, in_stage, rows_of, logical_lt, to_file}
use storm_tape.Database.Runs.{IsQuiet, Runs, Runs-pure, Runs-bind, Runs-query}
use storm_tape.Database.{find, find_file_entities}

-- What the tables hold of a stage.
abbrev pub found_stage : StageId → Tables → StageRequest
found_stage id t = record {
  files = map to_file (rows_of id t);
  created_at = (find_stage id t.stages).created_at;
  started_at = (find_stage id t.stages).started_at;
  completed_at = (find_stage id t.stages).completed_at;
}

abbrev pub find_in : StageId → Tables → Option StageRequest
find_in id t = if (find_stage id t.stages).id == id then some (found_stage id t) else none

rows_of-nil :
    (id : StageId) (t : Tables)
    → eqb (length (keep (in_stage id) t.files)) 0 ≡ true
    → rows_of id t ≡ []
unfolding rows_of
rows_of-nil id t h = go (keep (in_stage id) t.files) h
  where
    go : (fs : List FileEntity) → eqb (length fs) 0 ≡ true → sort logical_lt fs ≡ []
    go [] h = refl
    go (f ∷ fs) h = ground arith

module _ (E : Engine) (quiet : IsQuiet E) where
  find_file_entities-Runs :
      (id : StageId) (w : World) → Runs (find_file_entities E id) w (rows_of id w.tables) w.tables
  unfolding find_file_entities
  find_file_entities-Runs id w =
      Runs-bind _ _ w _ _ w.tables w.tables (Runs-query E quiet _ w) λ w' e _.
        elim (Bool-cases (eqb (length (keep (in_stage id) w.tables.files)) 0)) [
          | inl nothing ↦
              rw (nothing, rows_of-nil id w.tables nothing)
                (subst (Runs _ w' []) e (Runs-pure w' []))
          | inr some_rows ↦ rw some_rows (
              subst (λ t. Runs (query E (rows_of id)) w' (rows_of id t) t) e
                (Runs-query E quiet (rows_of id) w'))
        ]

  -- `find` returns what the tables hold.
  pub find-Runs : (id : StageId) (w : World) → Runs (find E id) w (find_in id w.tables) w.tables
  unfolding find
  find-Runs id w = Runs-bind _ _ w _ _ w.tables w.tables (Runs-query E quiet _ w) λ w' e _.
      elim (Bool-cases ((find_stage id w.tables.stages).id == id)) [
        | inr missing ↦ rw missing (subst (Runs _ w' none) e (Runs-pure w' none))
        | inl here ↦ rw here (
            Runs-bind _ _ w' _ _ w.tables w.tables
              (subst (λ t. Runs (find_file_entities E id) w' (rows_of id t) t) e
                (find_file_entities-Runs id w'))
              λ w'' e' _. subst (Runs _ w'' _) e' (Runs-pure w'' _))
      ]
