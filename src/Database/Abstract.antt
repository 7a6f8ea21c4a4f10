-- ===== src/Database/Abstract.antt =====
-- What a database promises to its clients (class Database of database.hpp): a map from the ids of the
-- stages to their times and the bag of their files. Rows, their order and the statements are forgotten.
-- The methods that count or list over all stages are not among the operations here.
pub mod Views
pub mod Removals
pub mod Changes
pub mod Refusals
pub mod Owning
pub mod Finding
pub mod Methods
pub mod Refines
use mathlib.Core.List.{Perm}
use mathlib.Core.List.Perm
use mathlib.Core.Quot
use mathlib.Core.Quot.{Quot, Quot-set}
use storm_tape.Prelude.{
  Bool, true, false, ◌&&◌, ◌||◌, not, Option, none, some, List, [], ◌∷◌, map, ◌==◌, eqb, keep,
  if◌then◌else◌,
}
use storm_tape.Model.{
  TimePoint, StageId, LogicalPath, PhysicalPath, State, submitted, started, File, StageRequest,
}
use storm_tape.Database.Session.{StageEntity, Tables}
use storm_tape.Database.Sql.{state_eq, is_pending, has_stage, find_stage, in_stage, to_file}
use storm_tape.Database.RoundTrip.{stored}
use storm_tape.Database.{StageUpdate}

-- Files up to their order.
abbrev pub Bag : Type 0
Bag = Quot (Perm {A = File})

abbrev pub bag : List File → Bag
bag = Quot.mk

unfoldable pub map_bag : (File → File) → Bag → Bag
map_bag g = Quot.lift Quot-set (λ fs. bag (map g fs)) λ fs gs p. Quot.sound (Perm.map g p)

pub record StoredStage : Type 0 where
  pub created_at : TimePoint
  pub started_at : TimePoint
  pub completed_at : TimePoint
  pub files : Bag

-- An abstract database.
abbrev pub Store : Type 0
Store = StageId → Option StoredStage

abbrev pub with_files : StageEntity → Bag → StoredStage
with_files s fs = record {
  created_at = s.created_at;
  started_at = s.started_at;
  completed_at = s.completed_at;
  files = fs;
}

-- A request, its files up to order.
abbrev pub forget : StageRequest → StoredStage
forget r = record {
  created_at = r.created_at;
  started_at = r.started_at;
  completed_at = r.completed_at;
  files = bag r.files;
}

-- The store that the tables stand for.
unfoldable pub view : Tables → Store
view t id =
    if has_stage id t.stages
    then some (with_files (find_stage id t.stages) (bag (map to_file (keep (in_stage id) t.files))))
    else none

-- The methods of Database that a client calls for a stage, or for the files with a physical path.
pub data Op : Type 0 where
  insert : StageId → StageRequest → Op
  find : StageId → Op
  update_state : StageId → LogicalPath → State → Op
  update_logical : StageId → LogicalPath → State → TimePoint → Op
  update_all_logical : StageId → List LogicalPath → State → TimePoint → Op
  update_physical : PhysicalPath → State → TimePoint → Op
  update_all_physical : List PhysicalPath → State → TimePoint → Op
  update_stage : StageUpdate → Op
  erase : StageId → Op

pub data Reply : Type 0 where
  done : Bool → Reply
  found : Option StoredStage → Reply

-- A file that starts, and one that ends.
abbrev pub start_file : TimePoint → File → File
start_file tp f = record f { state = started; started_at = tp }

abbrev pub finish_file : State → TimePoint → File → File
finish_file s tp f = record f {
  state = s;
  started_at = if eqb f.started_at 0 then tp else f.started_at;
  finished_at = tp;
}

-- A change of the file with a logical path, whatever its state.
abbrev pub by_logical : State → TimePoint → LogicalPath → File → File
by_logical submitted tp p f = f
by_logical started tp p f = if f.logical_path == p then start_file tp f else f
by_logical s tp p f = if f.logical_path == p then finish_file s tp f else f

-- A change of the files with a physical path: what waits may start, and what is not final may end.
abbrev pub by_physical : State → TimePoint → PhysicalPath → File → File
by_physical submitted tp p f = f
by_physical started tp p f =
    if f.physical_path == p && state_eq f.state submitted then start_file tp f else f
by_physical s tp p f = if f.physical_path == p && is_pending f.state then finish_file s tp f else f

-- One change after the other.
abbrev pub in_turn {ℓ} : {A : Type ℓ} → (A → File → File) → List A → File → File
in_turn change [] f = f
in_turn change (a ∷ as') f = in_turn change as' (change a f)

abbrev pub map_files : (File → File) → StoredStage → StoredStage
map_files g s = record s { files = map_bag g s.files }

abbrev pub on_stage : (StoredStage → StoredStage) → Option StoredStage → Option StoredStage
on_stage g none = none
on_stage g (some s) = some (g s)

abbrev pub at : StageId → (StoredStage → StoredStage) → Store → Store
at id g m k = if k == id then on_stage g (m k) else m k

abbrev pub everywhere : (File → File) → Store → Store
everywhere g m k = on_stage (map_files g) (m k)

abbrev pub put : StageId → Option StoredStage → Store → Store
put id o m k = if k == id then o else m k

abbrev pub set_times : Option StageEntity → Store → Store
set_times none m = m
set_times (some s) m = at s.id (λ old. with_files s old.files) m

-- Two files with one path.
abbrev pub has_path : LogicalPath → List File → Bool
has_path p [] = false
has_path p (f ∷ fs) = f.logical_path == p || has_path p fs

abbrev pub repeats : List File → Bool
repeats [] = false
repeats (f ∷ fs) = has_path f.logical_path fs || repeats fs

abbrev pub add : StageId → StageRequest → Option StoredStage → Store → Reply × Store
add id r (some old) m = (done false, m)
add id r none m =
    if repeats r.files
    then (done false, m)
    else (done true, put id (some (forget (record r { files = map stored r.files }))) m)

-- The empty id is found also where it is not stored, with no files and no times.
abbrev pub answer : StageId → Option StoredStage → Option StoredStage
answer id (some s) = some s
answer id none =
    if [] == id
    then some (record { created_at = 0; started_at = 0; completed_at = 0; files = bag [] })
    else none

abbrev pub remove : StageId → Option StoredStage → Store → Reply × Store
remove id none m = (done false, m)
remove id (some s) m = (done true, put id none m)

-- What each method promises.
unfoldable pub promise : Op → Store → Reply × Store
promise (insert id r) m = add id r (m id) m
promise (find id) m = (found (answer id (m id)), m)
promise (update_state id p s) m = (
  done true,
  at id (map_files (λ f. if f.logical_path == p then record f { state = s } else f)) m,
)
promise (update_logical id p s tp) m = (done true, at id (map_files (by_logical s tp p)) m)
promise (update_all_logical id ps s tp) m =
    (done true, at id (map_files (in_turn (by_logical s tp) ps)) m)
promise (update_physical p s tp) m = (done true, everywhere (by_physical s tp p) m)
promise (update_all_physical ps s tp) m = (done true, everywhere (in_turn (by_physical s tp) ps) m)
promise (update_stage u) m = (
  done true,
  everywhere (in_turn (λ (x : PhysicalPath × State). by_physical x.1 u.tp x.0) u.files)
      (set_times u.stage m),
)
promise (erase id) m = remove id (m id) m
