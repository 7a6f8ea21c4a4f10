-- ===== src/Database/Abstract/Finding.antt =====
-- What find and erase see of the tables, by the abstract store.
use mathlib.Core.List.Perm
use mathlib.Core.Quot
use storm_tape.Prelude.{
  ◌≡◌, refl, ap, true, false, not, Option, none, some, List, [], ◌∷◌, arith, keep, eqb, ◌==◌,
  ==_iff, Bool-cases, inl, inr,
}
use storm_tape.Model.{StageId, StageRequest}
use storm_tape.Algorithm.{sort}
use storm_tape.Algorithm.Sorting.{sort-perm}
use storm_tape.Database.Session.{Tables, StageEntity}
use storm_tape.Database.Sql.{has_stage, find_stage, in_stage, rows_of, logical_lt, to_file}
use storm_tape.Database.Lookup.{find_in}
use storm_tape.Database.Erasing.{how_many}
use storm_tape.Database.Owned.{IsOwned}
use storm_tape.Database.Abstract.{StoredStage, view, forget, answer}
use storm_tape.Database.Abstract.Removals.{rows-of_missing}

abbrev pub forget_found : Option StageRequest → Option StoredStage
forget_found none = none
forget_found (some r) = some (forget r)

find_stage-id :
    (id : StageId) (ss : List StageEntity) → has_stage id ss ≡ true → (find_stage id ss).id ≡ id
unfolding find_stage has_stage
find_stage-id id [] h = cc
find_stage-id id (s ∷ ss) h = ground (arith, find_stage-id id ss, ==_iff s.id id)

find_stage-blank :
    (id : StageId) (ss : List StageEntity)
    → has_stage id ss ≡ false
    → find_stage id ss ≡ record { id = []; created_at = 0; started_at = 0; completed_at = 0 }
unfolding find_stage has_stage
find_stage-blank id [] h = refl
find_stage-blank id (s ∷ ss) h = ground (arith, find_stage-blank id ss)

-- What is found is what the store has.
pub found-eq-answer :
    (id : StageId) (t : Tables) → IsOwned t → forget_found (find_in id t) ≡ answer id (view t id)
unfolding view rows_of sort
found-eq-answer id t h = elim (Bool-cases (has_stage id t.stages)) [
  | inl here ↦
      rw (here, find_stage-id id t.stages here, (==_iff id id).1 refl)
        (ap
          (λ b. some (record {
            created_at = (find_stage id t.stages).created_at;
            started_at = (find_stage id t.stages).started_at;
            completed_at = (find_stage id t.stages).completed_at;
            files = b;
          }))
          (Quot.sound (Perm.map to_file (sort-perm logical_lt (keep (in_stage id) t.files)))))
  | inr missing ↦ elim (Bool-cases ([] == id)) [
    | inl empty ↦ rw (
      missing,
      find_stage-blank id t.stages missing,
      empty,
      rows-of_missing id t.stages t.files missing h,
    )
    | inr other ↦ rw (missing, find_stage-blank id t.stages missing, other)
  ]
]

pub how_many-zero :
    (id : StageId) (t : Tables) → eqb (how_many id t) 0 ≡ not (has_stage id t.stages)
unfolding has_stage
how_many-zero id t = go t.stages
  where
    go :
        (ss : List StageEntity)
        → eqb (how_many id (record t { stages = ss })) 0 ≡ not (has_stage id ss)
    go [] = refl
    go (s ∷ ss) = ground (arith, go ss)
