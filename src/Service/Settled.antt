-- ===== src/Service/Settled.antt =====
-- That a stage which has ended is no longer among those that in_progress asks for.
use storm_tape.Prelude.{
  ◌≡◌, ◌≢◌, refl, sym, ap, subst, ◌∙◌, ◌⊎◌, inl, inr, Bool, true, false, Option, none, some, List,
  [], ◌∷◌, map, arith, All, keep, ◌==◌, ==_iff, Bool-cases, if◌then◌else◌,
}
use mathlib.Core.Option.{some-injective}
use storm_tape.Model.{TimePoint, StageId, PhysicalPath, State, StageRequest}
use storm_tape.Database.Session.{StageEntity, Tables}
use storm_tape.Database.Sql.{has_stage, find_stage, replace_stage, is_incomplete, incomplete}
use storm_tape.Database.Rows.{StageKeys}
use storm_tape.Database.Lookup.{found_stage, find_in}
use storm_tape.Database.Updates.{move_each, replace}

-- The row is of another stage, or has an end.
abbrev pub IsSettled : StageId → StageEntity → Type 0
IsSettled id s = ((s.id == id) ≡ false) ⊎ (s.completed_at ≢ 0)

others-IsSettled :
    (id : StageId) (ss : List StageEntity) → has_stage id ss ≡ false → All (IsSettled id) ss
unfolding has_stage
others-IsSettled id [] h = tt
others-IsSettled id (s ∷ ss) h = (inl (ground arith), others-IsSettled id ss (ground arith))

-- The stage that is found has an end already.
found-IsSettled :
    (id : StageId) (ss : List StageEntity)
    → StageKeys ss
    → (find_stage id ss).completed_at ≢ 0
    → All (IsSettled id) ss
unfolding find_stage
found-IsSettled id [] k n = tt
found-IsSettled id (s ∷ ss) k n = elim (Bool-cases (s.id == id)) [
  | inl same ↦ (
    inr (λ z. n (rw same z)),
    others-IsSettled id ss (subst (λ i. has_stage i ss ≡ false) ((==_iff s.id id).0 same) k.0),
  )
  | inr other ↦ (inl other, found-IsSettled id ss k.1 (λ z. n (rw other z)))
]

-- The row is written anew with an end.
replace-IsSettled :
    (entity : StageEntity) (ss : List StageEntity)
    → entity.completed_at ≢ 0
    → All (IsSettled entity.id) (map (replace_stage entity) ss)
replace-IsSettled entity [] n = tt
replace-IsSettled entity (s ∷ ss) n = (go (s.id == entity.id) refl, replace-IsSettled entity ss n)
  where
    go :
        (b : Bool)
        → (s.id == entity.id) ≡ b
        → IsSettled entity.id (if b then record entity { id = s.id } else s)
    go true e = inr n
    go false e = inl e

settled-incomplete :
    (id : StageId) (ss : List StageEntity)
    → All (IsSettled id) ss
    → All (λ i. (i == id) ≡ false) (map (λ s. s.id) (keep is_incomplete ss))
settled-incomplete id [] h = tt
settled-incomplete id (s ∷ ss) h = go (is_incomplete s) refl h.0 (settled-incomplete id ss h.1)
  where
    rest : List StageEntity
    rest = keep is_incomplete ss

    go :
        (b : Bool)
        → is_incomplete s ≡ b
        → IsSettled id s
        → All (λ i. (i == id) ≡ false) (map (λ s. s.id) rest)
        → All (λ i. (i == id) ≡ false) (map (λ s. s.id) (if b then s ∷ rest else rest))
    go true e (inl n) k = (n, k)
    go true e (inr n) k = absurd (ground (arith, n))
    go false e n k = k

stages-move_each :
    (cs : List (PhysicalPath × State)) (tp : TimePoint) (t : Tables)
    → (move_each cs tp t).stages ≡ t.stages
stages-move_each [] tp t = refl
stages-move_each ((p, s) ∷ cs) tp t = stages-move_each cs tp _

-- The stage that is found in the tables.
find_in-completed :
    (id : StageId) (t : Tables) (r : StageRequest)
    → find_in id t ≡ some r
    → (find_stage id t.stages).completed_at ≡ r.completed_at
find_in-completed id t r e = elim (Bool-cases ((find_stage id t.stages).id == id)) [
  | inl here ↦
      let e' : some (found_stage id t) ≡ some r = ground arith in
      ap (λ r. r.completed_at) (some-injective _ _ e')
  | inr missing ↦ absurd (ground arith)
]

-- What is left to in_progress of the stages, once a stage was found with an end or is stored with one.
pub not_incomplete :
    (id : StageId) (o : Option StageEntity) (cs : List (PhysicalPath × State)) (tp : TimePoint)
    (t : Tables)
    → All (IsSettled id) (replace o t).stages
    → All (λ i. (i == id) ≡ false) (incomplete (move_each cs tp (replace o t)))
not_incomplete id o cs tp t h =
    rw (stages-move_each cs tp (replace o t)) (settled-incomplete id (replace o t).stages h)

pub stored-IsSettled :
    (entity : StageEntity) (t : Tables)
    → entity.completed_at ≢ 0
    → All (IsSettled entity.id) (replace (some entity) t).stages
stored-IsSettled entity t n = replace-IsSettled entity t.stages n

pub kept-IsSettled :
    (id : StageId) (t : Tables) (r : StageRequest)
    → StageKeys t.stages
    → find_in id t ≡ some r
    → r.completed_at ≢ 0
    → All (IsSettled id) (replace none t).stages
kept-IsSettled id t r k e n =
    found-IsSettled id t.stages k (λ z. n (sym (find_in-completed id t r e) ∙ z))
