-- ===== src/Database/Abstract/Owning.antt =====
-- The operations of the database leave no file without its stage.
use storm_tape.Prelude.{
  ◌≡◌, ap, ◌∙◌, true, false, not, ◌||◌, Option, none, some, List, [], ◌∷◌, ◌++◌, map, arith, All,
  All-map, All-append, keep, ◌==◌, ==_iff,
}
use storm_tape.Model.{TimePoint, StageId, LogicalPath, PhysicalPath, State, File, StageRequest}
use storm_tape.Database.Session.{Tables, StageEntity, FileEntity}
use storm_tape.Database.Sql.{has_stage, in_stage, to_entity}
use storm_tape.Database.Rows.{has_stage-append}
use storm_tape.Database.RoundTrip.{with_stage, stage_row}
use storm_tape.Database.Updates.{move_rows, move_all, move_each, replace}
use storm_tape.Database.Erasing.{without}
use storm_tape.Database.Owned.{IsOwned, HasOwner, IsOwned-Closed}
use storm_tape.Database.Abstract.Changes.{moved-stage, relabelled-stage, stage_rows, stage_all}

pub map-IsOwned :
    (ss : List StageEntity) (g : FileEntity → FileEntity)
    → ((e : FileEntity) → (g e).stage_id ≡ e.stage_id)
    → (fs : List FileEntity) → All (HasOwner ss) fs
    → All (HasOwner ss) (map g fs)
map-IsOwned ss g same_stage [] h = tt
map-IsOwned ss g same_stage (f ∷ fs) h =
    (ap (λ id. has_stage id ss) (same_stage f) ∙ h.0, map-IsOwned ss g same_stage fs h.1)

pub move_all-IsOwned :
    (ps : List PhysicalPath) (s : State) (tp : TimePoint) (t : Tables)
    → IsOwned t
    → IsOwned (move_all ps s tp t)
move_all-IsOwned [] s tp t h = h
move_all-IsOwned (p ∷ ps) s tp t h =
    move_all-IsOwned ps s tp (move_rows p s tp t)
      (map-IsOwned t.stages _ (moved-stage p s tp) t.files h)

pub move_each-IsOwned :
    (xs : List (PhysicalPath × State)) (tp : TimePoint) (t : Tables)
    → IsOwned t
    → IsOwned (move_each xs tp t)
move_each-IsOwned [] tp t h = h
move_each-IsOwned ((p, s) ∷ xs) tp t h =
    move_each-IsOwned xs tp (move_rows p s tp t)
      (map-IsOwned t.stages _ (moved-stage p s tp) t.files h)

pub stage_all-IsOwned :
    (id : StageId) (ps : List LogicalPath) (s : State) (tp : TimePoint) (t : Tables)
    → IsOwned t
    → IsOwned (stage_all id ps s tp t)
stage_all-IsOwned id [] s tp t h = h
stage_all-IsOwned id (p ∷ ps) s tp t h =
    stage_all-IsOwned id ps s tp (stage_rows id p s tp t)
      (map-IsOwned t.stages _ (relabelled-stage id p s tp) t.files h)

pub replace-IsOwned : (o : Option StageEntity) (t : Tables) → IsOwned t → IsOwned (replace o t)
replace-IsOwned none t h = h
replace-IsOwned (some entity) t h = IsOwned-Closed.replace entity t h

all_in_stage :
    (id : StageId) (ss : List StageEntity) (fs : List File)
    → has_stage id ss ≡ true
    → All (HasOwner ss) (map (to_entity id) fs)
all_in_stage id ss [] h = tt
all_in_stage id ss (f ∷ fs) h = (h, all_in_stage id ss fs h)

pub with_stage-IsOwned :
    (id : StageId) (r : StageRequest) (t : Tables) → IsOwned t → IsOwned (with_stage id r t)
with_stage-IsOwned id r t h =
    All-append (HasOwner (t.stages ++ stage_row id r ∷ [])) t.files (map (to_entity id) r.files)
      (All-map (HasOwner t.stages) (HasOwner (t.stages ++ stage_row id r ∷ [])) t.files
        (λ f o.
          has_stage-append f.stage_id t.stages (stage_row id r) ∙ ap (λ b. b || id == f.stage_id) o)
        h)
      (all_in_stage id _ r.files
        (ground (arith, has_stage-append id t.stages (stage_row id r), ==_iff id id)))

dropped :
    (id : StageId) (fs : List FileEntity)
    → All (λ f. in_stage id f ≡ false) (keep (λ f. not (in_stage id f)) fs)
dropped id [] = tt
dropped id (f ∷ fs) = ground (arith, dropped id fs)

pub without-IsOwned : (id : StageId) (t : Tables) → IsOwned t → IsOwned (without id t)
without-IsOwned id t h =
    IsOwned-Closed.drop_stages id (record t { files = keep (λ f. not (in_stage id f)) t.files })
      (dropped id t.files) (IsOwned-Closed.drop_files (λ f. not (in_stage id f)) t h)
