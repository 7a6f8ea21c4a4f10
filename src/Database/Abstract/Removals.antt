-- ===== src/Database/Abstract/Removals.antt =====
-- What the removal of a stage is to the abstract store, and that no row is left of it.
use mathlib.Core.Path.{fun_ext}
use storm_tape.Prelude.{
  ◌≡◌, refl, false, not, none, List, [], ◌∷◌, arith, All, keep, ◌==◌, ==_iff, Bool-cases, inl, inr,
}
use storm_tape.Model.{StageId}
use storm_tape.Database.Session.{StageEntity, FileEntity, Tables}
use storm_tape.Database.Sql.{has_stage, find_stage, in_stage, is_stage}
use storm_tape.Database.Erasing.{without}
use storm_tape.Database.Owned.{HasOwner, has_stage-others}
use storm_tape.Database.Abstract.{view, put}
use storm_tape.Database.Abstract.Views.{rows}

rows-without :
    (k id : StageId) (fs : List FileEntity)
    → (k == id) ≡ false
    → rows k (keep (λ f. not (in_stage id f)) fs) ≡ rows k fs
rows-without k id [] n = refl
rows-without k id (f ∷ fs) n =
    ground (arith, rows-without k id fs n, ==_iff f.stage_id k, ==_iff f.stage_id id, ==_iff k id)

has_stage-gone :
    (id : StageId) (ss : List StageEntity)
    → has_stage id (keep (λ s. not (is_stage id s)) ss) ≡ false
unfolding has_stage
has_stage-gone id [] = refl
has_stage-gone id (s ∷ ss) = ground (arith, has_stage-gone id ss)

find_stage-others :
    (id other : StageId) (ss : List StageEntity)
    → (other == id) ≡ false
    → find_stage other (keep (λ s. not (is_stage id s)) ss) ≡ find_stage other ss
unfolding find_stage
find_stage-others id other [] n = refl
find_stage-others id other (s ∷ ss) n =
    ground
      (arith, find_stage-others id other ss n, ==_iff s.id id, ==_iff s.id other, ==_iff other id)

-- A stage that is removed.
pub view-without : (id : StageId) (t : Tables) → view (without id t) ≡ put id none (view t)
unfolding view
view-without id t = fun_ext λ k. elim (Bool-cases (k == id)) [
  | inl here ↦ rw (here, (==_iff k id).0 here, has_stage-gone id t.stages)
  | inr there ↦ rw (
    there,
    has_stage-others id k t.stages there,
    find_stage-others id k t.stages there,
    rows-without k id t.files there,
  )
]

-- The rows of a stage that is not there.
pub rows-of_missing :
    (id : StageId) (ss : List StageEntity) (fs : List FileEntity)
    → has_stage id ss ≡ false
    → All (HasOwner ss) fs
    → keep (in_stage id) fs ≡ []
rows-of_missing id ss [] new h = refl
rows-of_missing id ss (f ∷ fs) new h =
    ground (arith, rows-of_missing id ss fs new h.1, h.0, ==_iff f.stage_id id)
