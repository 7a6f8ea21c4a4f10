-- ===== src/Database/Abstract/Changes.antt =====
-- The updates of files, on the tables and on the abstract store.
use mathlib.Core.Path.{fun_ext}
use mathlib.Core.Quot
use mathlib.Core.Quot.{Quot-set}
use storm_tape.Prelude.{
  ◌≡◌, refl, sym, ap, ◌∙◌, true, false, Option, none, some, List, [], ◌∷◌, map, arith, ◌==◌,
  if◌then◌else◌, Bool-cases, inl, inr,
}
use storm_tape.Model.{
  TimePoint, StageId, LogicalPath, PhysicalPath, State, submitted, started, cancelled, failed,
  completed, File,
}
use storm_tape.Database.Session.{StageEntity, FileEntity, Tables}
use storm_tape.Database.Sql.{
  in_stage, is_row, logical_update, physical_update, update_where, to_file,
}
use storm_tape.Database.Updates.{run_row, move_rows, move_all, move_each, replace}
use storm_tape.Database.Abstract.{
  Store, StoredStage, Bag, view, bag, map_bag, map_files, at, everywhere, set_times, on_stage,
  by_logical, by_physical, in_turn,
}
use storm_tape.Database.Abstract.Views.{view-at, view-everywhere, view-replace}

map-map : (h g : File → File) (fs : List File) → map h (map g fs) ≡ map (λ f. h (g f)) fs
map-map h g [] = refl
map-map h g (f ∷ fs) = ap (◌∷◌ (h (g f))) (map-map h g fs)

map_bag-map_bag : (h g : File → File) (b : Bag) → map_bag h (map_bag g b) ≡ map_bag (λ f. h (g f)) b
unfolding map_bag
map_bag-map_bag h g = Quot.ind (λ _. hlevel Quot-set) λ fs. ap bag (map-map h g fs)

map-same : (fs : List File) → map (λ f. f) fs ≡ fs
map-same [] = refl
map-same (f ∷ fs) = ap (◌∷◌ f) (map-same fs)

map_bag-same : (b : Bag) → map_bag (λ f. f) b ≡ b
unfolding map_bag
map_bag-same = Quot.ind (λ _. hlevel Quot-set) λ fs. ap bag (map-same fs)

on_stage-twice :
    (h g : File → File) (o : Option StoredStage)
    → on_stage (map_files h) (on_stage (map_files g) o) ≡ on_stage (map_files (λ f. h (g f))) o
on_stage-twice h g none = refl
on_stage-twice h g (some s) = rw (map_bag-map_bag h g s.files)

on_stage-same : (o : Option StoredStage) → on_stage (map_files (λ f. f)) o ≡ o
on_stage-same none = refl
on_stage-same (some s) = rw (map_bag-same s.files)

everywhere-twice :
    (h g : File → File) (m : Store) → everywhere h (everywhere g m) ≡ everywhere (λ f. h (g f)) m
everywhere-twice h g m = fun_ext λ k. on_stage-twice h g (m k)

everywhere-same : (m : Store) → everywhere (λ f. f) m ≡ m
everywhere-same m = fun_ext λ k. on_stage-same (m k)

at-twice :
    (id : StageId) (h g : File → File) (m : Store)
    → at id (map_files h) (at id (map_files g) m) ≡ at id (map_files (λ f. h (g f))) m
at-twice id h g m = fun_ext λ k. elim (Bool-cases (k == id)) [
  | inl here ↦ rw here (on_stage-twice h g (m k))
  | inr there ↦ rw there
]

at-same : (id : StageId) (m : Store) → at id (map_files (λ f. f)) m ≡ m
at-same id m = fun_ext λ k. elim (Bool-cases (k == id)) [
  | inl here ↦ rw here (on_stage-same (m k))
  | inr there ↦ rw there
]

-- An update keeps the stage of a row.
pub moved-stage :
    (p : PhysicalPath) (s : State) (tp : TimePoint) (e : FileEntity)
    → (run_row (physical_update p s tp) e).stage_id ≡ e.stage_id
unfolding physical_update
moved-stage p submitted tp e = refl
moved-stage p started tp e = ground arith
moved-stage p cancelled tp e = ground arith
moved-stage p failed tp e = ground arith
moved-stage p completed tp e = ground arith

pub relabelled-stage :
    (id : StageId) (p : LogicalPath) (s : State) (tp : TimePoint) (e : FileEntity)
    → (run_row (logical_update id p s tp) e).stage_id ≡ e.stage_id
unfolding logical_update
relabelled-stage id p submitted tp e = refl
relabelled-stage id p started tp e = ground arith
relabelled-stage id p cancelled tp e = ground arith
relabelled-stage id p failed tp e = ground arith
relabelled-stage id p completed tp e = ground arith

-- An update by physical path.
view-move_rows :
    (p : PhysicalPath) (s : State) (tp : TimePoint) (t : Tables)
    → view (move_rows p s tp t) ≡ everywhere (by_physical s tp p) (view t)
unfolding physical_update
view-move_rows p s tp t = view-everywhere _ _ t (moved-stage p s tp) (changed s)
  where
    changed :
        (s : State) (e : FileEntity)
        → to_file (run_row (physical_update p s tp) e) ≡ by_physical s tp p (to_file e)
    changed submitted e = refl
    changed started e = ground arith
    changed cancelled e = ground arith
    changed failed e = ground arith
    changed completed e = ground arith

pub view-move_all :
    (ps : List PhysicalPath) (s : State) (tp : TimePoint) (t : Tables)
    → view (move_all ps s tp t) ≡ everywhere (in_turn (by_physical s tp) ps) (view t)
view-move_all [] s tp t = sym (everywhere-same (view t))
view-move_all (p ∷ ps) s tp t =
    view-move_all ps s tp (move_rows p s tp t)
    ∙ ap (everywhere (in_turn (by_physical s tp) ps)) (view-move_rows p s tp t)
    ∙ everywhere-twice (in_turn (by_physical s tp) ps) (by_physical s tp p) (view t)

-- The change of the files of a StageUpdate.
abbrev pub each_physical : TimePoint → PhysicalPath × State → File → File
each_physical tp x = by_physical x.1 tp x.0

pub view-move_each :
    (xs : List (PhysicalPath × State)) (tp : TimePoint) (t : Tables)
    → view (move_each xs tp t) ≡ everywhere (in_turn (each_physical tp) xs) (view t)
view-move_each [] tp t = sym (everywhere-same (view t))
view-move_each ((p, s) ∷ xs) tp t =
    view-move_each xs tp (move_rows p s tp t)
    ∙ ap (everywhere (in_turn (each_physical tp) xs)) (view-move_rows p s tp t)
    ∙ everywhere-twice (in_turn (each_physical tp) xs) (by_physical s tp p) (view t)

pub view-replaced :
    (o : Option StageEntity) (t : Tables) → view (replace o t) ≡ set_times o (view t)
view-replaced none t = refl
view-replaced (some entity) t = view-replace entity t

-- The rows after an update by logical path, and after several.
abbrev pub stage_rows : StageId → LogicalPath → State → TimePoint → Tables → Tables
stage_rows id p s tp t = record t { files = map (run_row (logical_update id p s tp)) t.files }

abbrev pub stage_all : StageId → List LogicalPath → State → TimePoint → Tables → Tables
stage_all id [] s tp t = t
stage_all id (p ∷ ps) s tp t = stage_all id ps s tp (stage_rows id p s tp t)

pub view-stage_rows :
    (id : StageId) (p : LogicalPath) (s : State) (tp : TimePoint) (t : Tables)
    → view (stage_rows id p s tp t) ≡ at id (map_files (by_logical s tp p)) (view t)
unfolding logical_update
view-stage_rows id p s tp t = view-at id _ _ t (relabelled-stage id p s tp) (changed s) (others s)
  where
    changed :
        (s : State) (e : FileEntity)
        → in_stage id e ≡ true
        → to_file (run_row (logical_update id p s tp) e) ≡ by_logical s tp p (to_file e)
    changed submitted e m = refl
    changed started e m = ground arith
    changed cancelled e m = ground arith
    changed failed e m = ground arith
    changed completed e m = ground arith

    others :
        (s : State) (e : FileEntity)
        → in_stage id e ≡ false
        → run_row (logical_update id p s tp) e ≡ e
    others submitted e m = refl
    others started e m = ground arith
    others cancelled e m = ground arith
    others failed e m = ground arith
    others completed e m = ground arith

pub view-stage_all :
    (id : StageId) (ps : List LogicalPath) (s : State) (tp : TimePoint) (t : Tables)
    → view (stage_all id ps s tp t) ≡ at id (map_files (in_turn (by_logical s tp) ps)) (view t)
view-stage_all id [] s tp t = sym (at-same id (view t))
view-stage_all id (p ∷ ps) s tp t =
    view-stage_all id ps s tp (stage_rows id p s tp t)
    ∙ ap (at id (map_files (in_turn (by_logical s tp) ps))) (view-stage_rows id p s tp t)
    ∙ at-twice id (in_turn (by_logical s tp) ps) (by_logical s tp p) (view t)

-- The update of the state alone.
pub view-state :
    (id : StageId) (p : LogicalPath) (s : State) (t : Tables)
    → view (record t {
      files = map (update_where (is_row id p) (λ f. record f { state = s })) t.files;
    })
      ≡ at id (map_files (λ f. if f.logical_path == p then record f { state = s } else f)) (view t)
view-state id p s t =
    view-at id _ _ t (λ e. ground arith) (λ e m. ground arith) (λ e m. ground arith)
