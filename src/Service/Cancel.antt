-- ===== src/Service/Cancel.antt =====
-- TapeService::cancel and release, when no statement of the database fails: which paths are refused,
-- and what is cancelled otherwise.
use mathlib.Core.List.{Perm}
use mathlib.Core.List.Perm
use storm_tape.Prelude.{◌≡◌, refl, subst, true, none, some, List, [], ◌∷◌, arith, In}
use storm_tape.Model.{TimePoint, StageId, LogicalPath, StageRequest}
use storm_tape.Path.{path_lt, path_key}
use storm_tape.Path.Lex.{lex-IsStrictOrder}
use storm_tape.Path.Order.{text_lt-IsStrictOrder}
use storm_tape.Algorithm.{sort, set_difference}
use storm_tape.Algorithm.Sorting.{
  In-sort, IsSorted, IsWeakOrder, strict-IsWeakOrder, sort-perm, sort-IsSorted,
}
use storm_tape.Algorithm.Matching.{
  length-Perm, set_difference-AreEquivalent, AreEquivalent-IsSorted,
}
use storm_tape.Algorithm.Difference.{
  Missing, IsIncreasing, set_difference_keeps, set_difference-In, set_difference-Missing,
}
use storm_tape.Database
use storm_tape.Database.Session.{World, Tables, stage_not_found}
use storm_tape.Database.Runs.{
  IsQuiet, Runs, Runs-pure, Runs-bind, Throws, Throws-bind, Throws-raise,
}
use storm_tape.Database.Lookup.{find_in, find-Runs}
use storm_tape.Database.Updates.{cancel_rows, update_all_logical-Runs}
use storm_tape.Service.{
  TapeService, PathsResponse, cancel, cancel_found, cancel_of, release, release_found,
}
use storm_tape.Service.Files.{logical_paths}

-- The paths that are refused for a stage.
abbrev pub invalid_paths : List LogicalPath → StageRequest → List LogicalPath
invalid_paths paths r = set_difference path_lt (sort path_lt paths) (logical_paths r.files)

-- What cancel leaves of the tables.
abbrev pub cancel_unless :
    List LogicalPath → StageId → List LogicalPath → TimePoint → Tables → Tables
cancel_unless [] id paths now t = cancel_rows id (sort path_lt paths) now t
cancel_unless (p ∷ ps) id paths now t = t

abbrev pub answer : StageId → List LogicalPath → PathsResponse
answer id ps = record { id = id; invalid = ps }

module _ (T : TapeService) (quiet : IsQuiet T.db) where
  cancel_of-Runs :
      (id : StageId) (paths : List LogicalPath) (now : TimePoint) (bad : List LogicalPath)
      (w : World) (t : Tables)
      → w.tables ≡ t
      → Runs
          (cancel_of T id (sort path_lt paths) now bad)
          w
          (answer id bad)
          (cancel_unless bad id paths now t)
  unfolding cancel_of
  cancel_of-Runs id paths now [] w t e =
      Runs-bind _ _ w true _ _ _
        (update_all_logical-Runs T.db quiet id (sort path_lt paths) now w t e)
        λ w' e' _. subst (Runs _ w' (answer id [])) e' (Runs-pure w' (answer id []))
  cancel_of-Runs id paths now (p ∷ bad) w t e =
      subst (Runs _ w (answer id (p ∷ bad))) e (Runs-pure w (answer id (p ∷ bad)))

  -- If no statement fails and the stage is stored, cancel returns the paths that set_difference leaves
  -- of the sorted request. If there are none, the rows of the stage that have a path of the request,
  -- and no others, become CANCELLED, finished now, and started now if they were not; otherwise nothing
  -- is changed.
  pub cancel-Runs :
      (id : StageId) (paths : List LogicalPath) (now : TimePoint) (w : World) (r : StageRequest)
      → find_in id w.tables ≡ some r
      → Runs
          (cancel T id paths now)
          w
          (answer id (invalid_paths paths r))
          (cancel_unless (invalid_paths paths r) id paths now w.tables)
  unfolding cancel cancel_found
  cancel-Runs id paths now w r e =
      Runs-bind _ _ w (some r) _ w.tables _
        (subst (λ o. Runs (Database.find T.db id) w o w.tables) e (find-Runs T.db quiet id w))
        λ w' e' _. cancel_of-Runs id paths now (invalid_paths paths r) w' w.tables e'

  -- If no statement fails and the stage is not stored, cancel and release throw StageNotFound and
  -- change nothing.
  pub cancel-missing_stage :
      (id : StageId) (paths : List LogicalPath) (now : TimePoint) (w : World)
      → find_in id w.tables ≡ none
      → Throws (cancel T id paths now) w (stage_not_found id)
        × Throws (release T id paths) w (stage_not_found id)
  unfolding cancel cancel_found release release_found
  cancel-missing_stage id paths now w e = (
    Throws-bind _ _ w none w.tables _ refl found λ w' _ _. Throws-raise w' _,
    Throws-bind _ _ w none w.tables _ refl found λ w' _ _. Throws-raise w' _,
  )
    where
      found : Runs (Database.find T.db id) w none w.tables
      found = subst (λ o. Runs (Database.find T.db id) w o w.tables) e (find-Runs T.db quiet id w)

  -- If no statement fails and the stage is stored, release returns the same paths as cancel, and changes
  -- nothing.
  pub release-Runs :
      (id : StageId) (paths : List LogicalPath) (w : World) (r : StageRequest)
      → find_in id w.tables ≡ some r
      → Runs (release T id paths) w (answer id (invalid_paths paths r)) w.tables
  unfolding release release_found
  release-Runs id paths w r e =
      Runs-bind _ _ w (some r) _ w.tables _
        (subst (λ o. Runs (Database.find T.db id) w o w.tables) e (find-Runs T.db quiet id w))
        λ w' e' _. subst (Runs _ w' _) e' (Runs-pure w' _)

  -- If no statement fails and the stage is stored, a requested path that is not equivalent to a path
  -- of the stage is among the refused ones, in whatever order the database returns the files, and
  -- nothing is cancelled.
  pub cancel-refuses :
      (id : StageId) (paths : List LogicalPath) (now : TimePoint) (w : World) (r : StageRequest)
      (p : LogicalPath)
      → find_in id w.tables ≡ some r
      → In p paths
      → Missing path_lt p (logical_paths r.files)
      → (bad : List LogicalPath) × In p bad
        × Runs (cancel T id paths now) w (answer id bad) w.tables
  cancel-refuses id paths now w r p e m n =
      let refused =
        set_difference_keeps path_lt p (sort path_lt paths) (logical_paths r.files)
          (In-sort path_lt p paths m) n in
      (
        invalid_paths paths r,
        refused,
        subst (Runs (cancel T id paths now) w _) (nothing (invalid_paths paths r) refused)
            (cancel-Runs id paths now w r e),
      )
    where
      nothing :
          (bad : List LogicalPath) → In p bad → cancel_unless bad id paths now w.tables ≡ w.tables
      nothing [] k = absurd k
      nothing (b ∷ bad) k = refl

pub path_lt-IsWeakOrder : IsWeakOrder path_lt
unfolding path_lt
path_lt-IsWeakOrder = strict-IsWeakOrder (lex-IsStrictOrder text_lt-IsStrictOrder) path_key

-- If the files of the stage come in the order of their paths and no two of the requested paths are
-- equivalent, then a path that is refused is one of the request, and is not equivalent to a path of
-- the stage.
pub invalid_paths-Missing :
    (paths : List LogicalPath) (r : StageRequest) (p : LogicalPath)
    → IsIncreasing path_lt (sort path_lt paths)
    → IsSorted path_lt (logical_paths r.files)
    → In p (invalid_paths paths r)
    → In p (sort path_lt paths) × Missing path_lt p (logical_paths r.files)
invalid_paths-Missing paths r p i s m = (
  set_difference-In path_lt p (sort path_lt paths) (logical_paths r.files) m,
  set_difference-Missing path_lt-IsWeakOrder p (sort path_lt paths) (logical_paths r.files) i s m,
)

-- If the files of a stage come in an order that is not the one of the service's paths, and no statement
-- fails, then a request to cancel exactly the files of the stage, in whatever order it lists them, is
-- refused, and nothing is cancelled.
pub cancel-misordered :
    (T : TapeService) (quiet : IsQuiet T.db) (id : StageId) (paths : List LogicalPath)
    (now : TimePoint) (w : World) (r : StageRequest)
    → find_in id w.tables ≡ some r
    → Perm paths (logical_paths r.files)
    → ¬ IsSorted path_lt (logical_paths r.files)
    → (p : LogicalPath) × (bad : List LogicalPath) × Runs
        (cancel T id paths now)
        w
        (answer id (p ∷ bad))
        w.tables
cancel-misordered T quiet id paths now w r e all misordered =
    go (invalid_paths paths r) refl (cancel-Runs T quiet id paths now w r e)
  where
    go :
        (bad : List LogicalPath)
        → invalid_paths paths r ≡ bad
        → Runs (cancel T id paths now) w (answer id bad) (cancel_unless bad id paths now w.tables)
        → (p : LogicalPath) × (bad : List LogicalPath) × Runs
            (cancel T id paths now)
            w
            (answer id (p ∷ bad))
            w.tables
    go [] none_left ran =
        let sorted = Perm.trans (sort-perm path_lt paths) all in
        absurd (
          misordered (
            AreEquivalent-IsSorted path_lt-IsWeakOrder (sort path_lt paths) (logical_paths r.files)
              (set_difference-AreEquivalent path_lt (sort path_lt paths) (logical_paths r.files)
                none_left (omega (arith, length-Perm sorted)))
              (sort-IsSorted path_lt-IsWeakOrder paths)))
    go (p ∷ bad) some_left ran = (p, bad, ran)
