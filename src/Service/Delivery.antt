-- ===== src/Service/Delivery.antt =====
-- From take_over to the end of a stage, when no statement of the database fails: once the waiting files
-- have been taken over and no recall runs any more, one status request ends the stage.
use storm_tape.Prelude.{
  ℕ, ◌≤◌, ◌<◌, ◌≡◌, ◌≢◌, refl, sym, ap, ◌∙◌, true, false, some, List, [], ◌∷◌, map, arith, All,
  keep, length, ◌==◌, ==_iff, Bool-cases, inl, inr,
}
use storm_tape.Model.{
  TimePoint, StageId, PhysicalPath, State, submitted, started, cancelled, failed, completed,
  StageRequest,
}
use storm_tape.Algorithm.{sort}
use storm_tape.Algorithm.Sorting.{All-sort}
use storm_tape.Storage.{Storage}
use storm_tape.Database.Session.{World, Tables, FileEntity, ok}
use storm_tape.Database.Sql.{
  contains, paths_in, state_eq, in_stage, find_stage, rows_of, logical_lt, to_file, incomplete,
}
use storm_tape.Database.Rows.{IsValid}
use storm_tape.Database.Runs.{IsQuiet}
use storm_tape.Database.Lookup.{find_in, found_stage}
use storm_tape.Service.{TapeService, status}
use storm_tape.Service.Waiting.{waits, contains-paths_in}
use storm_tape.Service.Calls.{IsSane, run, run-IsValid}
use storm_tape.Service.Draining.{IsOrder, waiting, all_take_over, requested, waiting-run}
use storm_tape.Service.Completion.{IsOver, HasEnded, status-completes}
use storm_tape.Service.Refresh.{sort-some}
use storm_tape.Service.Persisting.{timed-found, files-of_found}
use storm_tape.Service.Kept.{IsIdle, run-IsKept}

contains-nothing :
    (p : PhysicalPath) (ps : List PhysicalPath) → length ps ≡ 0 → contains p ps ≡ false
unfolding contains
contains-nothing p [] h = refl
contains-nothing p (q ∷ ps) h = absurd (omega (arith, h))

-- With no path waiting, no row is SUBMITTED.
none_waits : (p : PhysicalPath) (t : Tables) → waiting t ≡ 0 → waits p t.files ≡ false
none_waits p t h = sym (contains-paths_in p t) ∙ contains-nothing p (paths_in submitted t) h

not_submitted : (t : Tables) → waiting t ≡ 0 → All (λ f. state_eq f.state submitted ≡ false) t.files
not_submitted t h = go t.files (λ p. none_waits p t h)
  where
    go :
        (fs : List FileEntity)
        → ((p : PhysicalPath) → waits p fs ≡ false)
        → All (λ f. state_eq f.state submitted ≡ false) fs
    go [] k = tt
    go (f ∷ fs) k = (
      ground (arith, k f.physical_path, ==_iff f.physical_path f.physical_path),
      go fs (λ p. ground (arith, k p)),
    )

module _ (S : Storage) (id : StageId) where
  over_row :
      (f : FileEntity)
      → state_eq f.state submitted ≡ false
      → IsIdle S id f
      → in_stage id f ≡ true
      → IsOver S (to_file f)
  over_row f h idle m = go f.state refl
    where
      go : (s : State) → f.state ≡ s → IsOver S (to_file f)
      go submitted e = absurd (ground arith)
      go started e = IsOver.recalled e (idle m)
      go cancelled e = IsOver.final (rw e)
      go failed e = IsOver.final (rw e)
      go completed e = IsOver.final (rw e)

  over_keep :
      (fs : List FileEntity)
      → All (λ f. state_eq f.state submitted ≡ false) fs
      → All (IsIdle S id) fs
      → All (λ f. IsOver S (to_file f)) (keep (in_stage id) fs)
  over_keep [] h k = tt
  over_keep (f ∷ fs) h k = elim (Bool-cases (in_stage id f)) [
    | inl here ↦ rw here (over_row f h.0 k.0 here, over_keep fs h.1 k.1)
    | inr there ↦ rw there (over_keep fs h.1 k.1)
  ]

  over_files :
      (fs : List FileEntity) → All (λ f. IsOver S (to_file f)) fs → All (IsOver S) (map to_file fs)
  over_files [] h = tt
  over_files (f ∷ fs) h = (h.0, over_files fs h.1)

  over_found :
      (t : Tables)
      → waiting t ≡ 0
      → All (IsIdle S id) t.files
      → All (IsOver S) (found_stage id t).files
  unfolding rows_of
  over_found t h idle = over_files (rows_of id t) (
      All-sort (λ f. IsOver S (to_file f)) logical_lt (keep (in_stage id) t.files)
        (over_keep t.files (not_submitted t h) idle))

-- A stage that is found is found as long as its row stays.
found_still :
    (id : StageId) (t t' : Tables) (r : StageRequest)
    → find_in id t ≡ some r
    → t'.stages ≡ t.stages
    → find_in id t' ≡ some (found_stage id t')
found_still id t t' r e same = elim (Bool-cases ((find_stage id t.stages).id == id)) [
  | inl here ↦ rw (same, here)
  | inr there ↦ absurd (ground arith)
]

some_files :
    (id : StageId) (t : Tables) → keep (in_stage id) t.files ≢ [] → (found_stage id t).files ≢ []
unfolding rows_of
some_files id t n e = sort-some logical_lt (keep (in_stage id) t.files) n (go (rows_of id t) e)
  where
    go : (fs : List FileEntity) → map to_file fs ≡ [] → fs ≡ []
    go [] h = refl
    go (f ∷ fs) h = cc

some_rows :
    (id : StageId) (t : Tables) (r : StageRequest)
    → find_in id t ≡ some r
    → r.files ≢ []
    → keep (in_stage id) t.files ≢ []
unfolding rows_of sort
some_rows id t r e n nothing =
    n (files-of_found id t r e ∙ ap (λ fs. map to_file (sort logical_lt fs)) nothing)

all_take_over-IsSane :
    (cs : List (ℕ × TimePoint))
    → All (λ c. (0 < c.0) × (0 < c.1)) cs
    → All IsSane (all_take_over cs) × All (λ c. 0 < c.0) cs
all_take_over-IsSane [] h = (tt, tt)
all_take_over-IsSane ((n, now) ∷ cs) h =
    let rest = all_take_over-IsSane cs h.1 in ((h.0.1, rest.0), (h.0.0, rest.1))

-- If no statement fails, neither for these calls nor for the request, the engine gives each row
-- of a SELECT once, the tables are valid, and calls of take_over, each for n > 0 files and with the
-- clock past the epoch, have requested as many files as were waiting, then for a stage that was stored
-- with a file, and none of whose files is being recalled any more as the storage then answers, one
-- status request past the epoch returns the stage with all its files in a final state and with an end; it is then not among
-- the incomplete stages.
pub taken-completes :
    (T later : TapeService) (quiet : IsQuiet T.db) (quiet_later : IsQuiet later.db)
    (order : IsOrder T.db) (id : StageId) (cs : List (ℕ × TimePoint)) (now : TimePoint) (w : World)
    (r : StageRequest)
    → IsValid w.tables
    → find_in id w.tables ≡ some r
    → r.files ≢ []
    → All (λ c. (0 < c.0) × (0 < c.1)) cs
    → waiting w.tables ≤ requested cs
    → 0 < now
    → All (IsIdle (later.storage (run T (all_take_over cs) w).set_calls) id) w.tables.files
    → (s : StageRequest) × (after : World) × (status later id now (run T (all_take_over cs) w)
        ≡ (ok (record { id = id; stage = s }), after))
      × All HasEnded s.files
      × (s.completed_at ≢ 0)
      × All (λ i. (i == id) ≡ false) (incomplete after.tables)
taken-completes T later quiet quiet_later order id cs now w r valid e n h enough pos idle =
    let w' = run T (all_take_over cs) w in
    let S = later.storage w'.set_calls in
    let (sane, counts) = all_take_over-IsSane cs h in
    let valid' = run-IsValid T (all_take_over cs) w sane valid in
    let kept =
      run-IsKept S id w.tables.stages T quiet cs w h
        (record { stages = refl; some_rows = some_rows id w.tables r e n; idle = idle }) in
    let found = found_still id w.tables w'.tables r e kept.stages in
    let zero_waiting : waiting w'.tables ≡ 0 =
      omega (arith, waiting-run T quiet order cs w counts, enough) in
    status-completes later quiet_later id now w' (found_stage id w'.tables) found valid'.stage_keys
      (some_files id w'.tables kept.some_rows) pos
      (timed-found id w'.tables (found_stage id w'.tables) valid'.rows found)
      (over_found S id w'.tables zero_waiting kept.idle)
