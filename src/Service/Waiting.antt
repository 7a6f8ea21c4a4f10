-- ===== src/Service/Waiting.antt =====
-- The SUBMITTED paths that take_over leaves: those that it has not looked at.

use storm_tape.Prelude.{
  ◌≡◌, refl, ap, ap₂, ◌∙◌, Bool, false, ◌&&◌, ◌||◌, not, List, [], ◌∷◌, map, arith, ◌==◌, ==_iff,
  keep, if◌then◌else◌,
}
use storm_tape.Model.{
  TimePoint, PhysicalPath, State, submitted, started, cancelled, failed, completed,
}
use storm_tape.Host.{SetCalls}
use storm_tape.Storage.{Storage}
use storm_tape.Database.Session.{Tables, FileEntity}
use storm_tape.Database.Sql.{paths_in, state_eq, physical_update, contains}
use storm_tape.Database.Counting.{count, count-distinct, contains-distinct}
use storm_tape.Database.Updates.{run_row, move_all, move_rows}
use storm_tape.Service.{TapeService}
use storm_tape.Service.Recall.{
  PathLocality, only_on_tape, on_disk, paths_of, with_localities, recall_in_progress, select,
}
use storm_tape.Service.Groups.{taken_tables, groups}

-- A row with the path is SUBMITTED.
abbrev pub waits : PhysicalPath → List FileEntity → Bool
waits p [] = false
waits p (f ∷ fs) = f.physical_path == p && state_eq f.state submitted || waits p fs

contains-waiting :
    (p : PhysicalPath) (fs : List FileEntity)
    → contains p (map (λ f. f.physical_path) (keep (λ f. state_eq f.state submitted) fs))
      ≡ waits p fs
unfolding contains
contains-waiting p [] = refl
contains-waiting p (f ∷ fs) = ground (arith, contains-waiting p fs)

pub contains-paths_in :
    (p : PhysicalPath) (t : Tables) → contains p (paths_in submitted t) ≡ waits p t.files
unfolding paths_in
contains-paths_in p t = contains-distinct p _ ∙ contains-waiting p t.files

pub count-paths_in :
    (p : PhysicalPath) (t : Tables)
    → count p (paths_in submitted t) ≡ (if waits p t.files then 1 else 0)
unfolding paths_in
count-paths_in p t =
    count-distinct p (map (λ f. f.physical_path) (keep (λ f. state_eq f.state submitted) t.files))
    ∙ ap (λ (b : Bool). if b then 1 else 0) (contains-waiting p t.files)

-- A row after an update to a state that is not SUBMITTED.
waits-row :
    (p q : PhysicalPath) (s : State) (tp : TimePoint) (f : FileEntity)
    → state_eq s submitted ≡ false
    → ((run_row (physical_update q s tp) f).physical_path == p
        && state_eq (run_row (physical_update q s tp) f).state submitted)
      ≡ ((f.physical_path == p && state_eq f.state submitted) && not (q == p))
unfolding physical_update
waits-row p q submitted tp f n = cc
waits-row p q started tp f n =
    ground (arith, ==_iff f.physical_path q, ==_iff f.physical_path p, ==_iff q p)
waits-row p q cancelled tp f n =
    ground (arith, ==_iff f.physical_path q, ==_iff f.physical_path p, ==_iff q p)
waits-row p q failed tp f n =
    ground (arith, ==_iff f.physical_path q, ==_iff f.physical_path p, ==_iff q p)
waits-row p q completed tp f n =
    ground (arith, ==_iff f.physical_path q, ==_iff f.physical_path p, ==_iff q p)

waits-move :
    (p q : PhysicalPath) (s : State) (tp : TimePoint) (fs : List FileEntity)
    → state_eq s submitted ≡ false
    → waits p (map (run_row (physical_update q s tp)) fs) ≡ (waits p fs && not (q == p))
waits-move p q s tp [] n = refl
waits-move p q s tp (f ∷ fs) n =
    rw (waits-row p q s tp f n, waits-move p q s tp fs n) (ground arith)

waits-move_all :
    (p : PhysicalPath) (qs : List PhysicalPath) (s : State) (tp : TimePoint) (t : Tables)
    → state_eq s submitted ≡ false
    → waits p (move_all qs s tp t).files ≡ (waits p t.files && not (contains p qs))
unfolding contains
waits-move_all p [] s tp t n = ground arith
waits-move_all p (q ∷ qs) s tp t n =
    rw (waits-move_all p qs s tp (move_rows q s tp t) n, waits-move p q s tp t.files n)
      (ground arith)

-- A filter and its complement have all the paths.
contains-partition :
    (p : PhysicalPath) (f : PathLocality → Bool) (xs : List PathLocality)
    → (contains p (paths_of (keep f xs)) || contains p (paths_of (keep (λ x. not (f x)) xs)))
      ≡ contains p (paths_of xs)
unfolding contains
contains-partition p f [] = refl
contains-partition p f (x ∷ xs) = ground (arith, contains-partition p f xs)

paths_of-with_localities :
    (S : Storage) (ps : List PhysicalPath) → paths_of (with_localities S ps) ≡ ps
unfolding with_localities
paths_of-with_localities S [] = refl
paths_of-with_localities S (p ∷ ps) = ap (◌∷◌ p) (paths_of-with_localities S ps)

module _ (T : TapeService) where
  contains-groups :
      (p : PhysicalPath) (calls : SetCalls) (ps : List PhysicalPath)
      → (let g = groups T calls ps in
          ((contains p g.in_progress || contains p g.need_recall)
            || (contains p g.on_disk_now || contains p g.the_rest))
          ≡ contains p ps)
  unfolding select
  contains-groups p calls ps =
      let xs = with_localities (T.storage calls) ps in
      let tape = keep only_on_tape xs in
      let other = keep (λ x. not (only_on_tape x)) xs in
      ap₂ ◌||◌ (contains-partition p (λ f. recall_in_progress T calls f.0) tape)
        (contains-partition p on_disk other)
      ∙ contains-partition p only_on_tape xs
      ∙ ap (contains p) (paths_of-with_localities (T.storage calls) ps)

  pub waits-taken :
      (p : PhysicalPath) (calls : SetCalls) (ps : List PhysicalPath) (now : TimePoint) (t : Tables)
      → waits p (taken_tables (groups T calls ps) now t).files
        ≡ (waits p t.files && not (contains p ps))
  waits-taken p calls ps now t =
      let g = groups T calls ps in
      let t1 = move_all g.in_progress started now t in
      let t2 = move_all g.on_disk_now completed now t1 in
      let t3 = move_all g.the_rest failed now t2 in
      together _ _ _ _ _ _ _ _ _ _ (waits-move_all p g.in_progress started now t refl)
        (waits-move_all p g.on_disk_now completed now t1 refl)
        (waits-move_all p g.the_rest failed now t2 refl)
        (waits-move_all p g.need_recall started now t3 refl) (contains-groups p calls ps)
    where
      together :
          (w w1 w2 w3 w4 a b c d all : Bool)
          → w1 ≡ (w && not a)
          → w2 ≡ (w1 && not c)
          → w3 ≡ (w2 && not d)
          → w4 ≡ (w3 && not b)
          → ((a || b) || (c || d)) ≡ all
          → w4 ≡ (w && not all)
      together w w1 w2 w3 w4 a b c d all e e1 e2 e3 e4 = ground arith
