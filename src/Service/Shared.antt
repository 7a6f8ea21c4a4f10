-- ===== src/Service/Shared.antt =====
-- Files of several stages on one physical path: what a status request for one stage makes of the others,
-- when no statement fails.
use storm_tape.Prelude.{
  ◌≡◌, ◌≢◌, refl, sym, ap, ap₂, subst, ◌∙◌, ◌⊎◌, inl, inr, true, false, Option, none, some, List,
  [], ◌∷◌, ◌++◌, map, arith, In, Bool-cases, ==_iff, ◌==◌,
}
use storm_tape.Model.{
  TimePoint, StageId, PhysicalPath, State, submitted, started, cancelled, failed, completed,
  FileSizeInfo, File, StageRequest,
}
use storm_tape.Algorithm.Sorting.{sort-IsSorted}
use storm_tape.Stage.{by_state}
use storm_tape.Stage.Update.{update_timestamps-IsUpdate}
use storm_tape.Storage.{Storage, value}
use storm_tape.Database.Session.{World, Tables, FileEntity, StageEntity}
use storm_tape.Database.Sql.{physical_update, is_pending, finish}
use storm_tape.Database.Runs.{IsQuiet, Runs}
use storm_tape.Database.Lookup.{find_in}
use storm_tape.Database.Updates.{run_row, move_each, replace}
use storm_tape.Service.{TapeService, status, stage_update}
use storm_tape.Service.Files.{refresh, refresh_all, changes, changes_of}
use storm_tape.Service.Changes.{refresh-path}
use storm_tape.Service.Refresh.{
  verdict, moved, refresh-eq-verdict, refreshed, refreshed_tables, status-Runs,
  by_state-IsWeakOrder, sort-some, refresh_all-some,
}

-- A row after one change after the other.
abbrev row_all : List (PhysicalPath × State) → TimePoint → FileEntity → FileEntity
row_all [] tp g = g
row_all ((p, s) ∷ xs) tp g = row_all xs tp (run_row (physical_update p s tp) g)

In-map :
    (h : FileEntity → FileEntity) (g : FileEntity) (fs : List FileEntity)
    → In g fs
    → In (h g) (map h fs)
In-map h g [] m = absurd m
In-map h g (f ∷ fs) (inl e) = inl (ap h e)
In-map h g (f ∷ fs) (inr m) = inr (In-map h g fs m)

In-move_each :
    (xs : List (PhysicalPath × State)) (tp : TimePoint) (g : FileEntity) (t : Tables)
    → In g t.files
    → In (row_all xs tp g) (move_each xs tp t).files
In-move_each [] tp g t m = m
In-move_each ((p, s) ∷ xs) tp g t m =
    In-move_each xs tp (run_row (physical_update p s tp) g) _
      (In-map (run_row (physical_update p s tp)) g t.files m)

In-replace :
    (o : Option StageEntity) (g : FileEntity) (t : Tables) → In g t.files → In g (replace o t).files
In-replace none g t m = m
In-replace (some entity) g t m = m

row_all-append :
    (xs ys : List (PhysicalPath × State)) (tp : TimePoint) (g : FileEntity)
    → row_all (xs ++ ys) tp g ≡ row_all ys tp (row_all xs tp g)
row_all-append [] ys tp g = refl
row_all-append ((p, s) ∷ xs) ys tp g = row_all-append xs ys tp (run_row (physical_update p s tp) g)

-- A FAILED row stays as it is.
failed_stays :
    (xs : List (PhysicalPath × State)) (tp : TimePoint) (g : FileEntity)
    → g.state ≡ failed
    → row_all xs tp g ≡ g
unfolding physical_update
failed_stays [] tp g h = refl
failed_stays ((p, s) ∷ xs) tp g h = ap (row_all xs tp) (kept s) ∙ failed_stays xs tp g h
  where
    kept : (s : State) → run_row (physical_update p s tp) g ≡ g
    kept submitted = refl
    kept started = ground arith
    kept cancelled = ground arith
    kept failed = ground arith
    kept completed = ground arith

-- A change for another path leaves a row.
other_row :
    (g : FileEntity) (p : PhysicalPath) (s : State) (tp : TimePoint)
    → (g.physical_path == p) ≡ false
    → run_row (physical_update p s tp) g ≡ g
unfolding physical_update
other_row g p submitted tp n = refl
other_row g p started tp n = rw n
other_row g p cancelled tp n = rw n
other_row g p failed tp n = rw n
other_row g p completed tp n = rw n

module _ (S : Storage) (now : TimePoint) (g : FileEntity) (pending : is_pending g.state ≡ true)
    (i : FileSizeInfo) (idle : S.is_in_progress g.physical_path ≡ value false)
    (info : S.file_size_info g.physical_path ≡ value i) (stub : i.is_stub ≡ true) where
  refresh-shared :
      (h : File)
      → h.physical_path ≡ g.physical_path
      → refresh S now h ≡ moved h now (verdict h.state (value false) (value i))
  refresh-shared h e =
      refresh-eq-verdict S now h
      ∙ ap₂ (λ p q. moved h now (verdict h.state p q)) (ap S.is_in_progress e ∙ idle)
          (ap S.file_size_info e ∙ info)

  -- The change for a file on the path fails the row, or there is none.
  abbrev Fails : File → List (PhysicalPath × State) → Type 0
  Fails h xs =
      (row_all xs now g ≡ finish failed now g) ⊎ ((h.state ≡ started → ⊥) × (row_all xs now g ≡ g))

  same_path_change :
      (h : File) → h.physical_path ≡ g.physical_path → Fails h (changes_of S now (refresh S now h))
  unfolding changes_of physical_update
  same_path_change h e =
      subst (λ x. Fails h (changes_of S now x)) (sym (refresh-shared h e)) (go h.state refl)
    where
      go :
          (s : State)
          → h.state ≡ s
          → Fails h (changes_of S now (moved h now (verdict s (value false) (value i))))
      go submitted k = inr ((λ k'. ground arith), rw stub)
      go started k = inl (rw stub (ground (arith, ==_iff g.physical_path h.physical_path)))
      go cancelled k = inr ((λ k'. ground arith), refl)
      go failed k = inr ((λ k'. ground arith), refl)
      go completed k = inr ((λ k'. ground arith), refl)

  other_path_change :
      (h : File)
      → (h.physical_path == g.physical_path) ≡ false
      → row_all (changes_of S now (refresh S now h)) now g ≡ g
  unfolding changes_of
  other_path_change h n =
      go (refresh S now h).0 (refresh S now h).1
        (ap (λ p. p == g.physical_path) (refresh-path S now h) ∙ n)
    where
      go :
          (k : File) (o : Option State)
          → (k.physical_path == g.physical_path) ≡ false
          → row_all (changes_of S now (k, o)) now g ≡ g
      go k none n = refl
      go k (some s) n = other_row g k.physical_path s now (
          ground
            (arith, ==_iff k.physical_path g.physical_path, ==_iff g.physical_path k.physical_path))

  -- A STARTED file among the files fails the row.
  changes_fail :
      (f : File) (fs : List File)
      → In f fs
      → f.state ≡ started
      → f.physical_path ≡ g.physical_path
      → row_all (changes S now fs) now g ≡ finish failed now g
  unfolding changes
  changes_fail f [] m e p = absurd m
  changes_fail f (h ∷ hs) m e p =
      row_all-append (changes_of S now (refresh S now h)) (changes S now hs) now g
      ∙ elim (Bool-cases (h.physical_path == g.physical_path)) [
        | inl same ↦ elim (same_path_change h ((==_iff h.physical_path g.physical_path).0 same)) [
          | inl fails ↦
              ap (row_all (changes S now hs) now) fails
              ∙ failed_stays (changes S now hs) now (finish failed now g) refl
          | inr (idle', kept) ↦
              ap (row_all (changes S now hs) now) kept
              ∙ later m (λ k. idle' (ap (λ x. x.state) (sym k) ∙ e)) (λ k. changes_fail f hs k e p)
        ]
        | inr other ↦
            ap (row_all (changes S now hs) now) (other_path_change h other)
            ∙ later m
                (λ k.
                  ground
                    (arith, ==_iff h.physical_path g.physical_path, ap (λ x. x.physical_path) k))
                (λ k. changes_fail f hs k e p)
      ]
    where
      later :
          In f (h ∷ hs)
          → (f ≡ h → ⊥)
          → (In f hs → row_all (changes S now hs) now g ≡ finish failed now g)
          → row_all (changes S now hs) now g ≡ finish failed now g
      later (inl k) n ih = absurd (n k)
      later (inr k) n ih = ih k

some-of_In : (f : File) (fs : List File) → In f fs → fs ≢ []
some-of_In f [] m = absurd m
some-of_In f (h ∷ hs) m = λ e. ground arith

module _ (T : TapeService) (quiet : IsQuiet T.db) where
  -- If no statement fails, and the recall of a STARTED file of a stored stage is over with the file still
  -- a stub, then a status request for the stage makes each row with its physical path FAILED that is
  -- SUBMITTED or STARTED, of whatever stage, and ended now.
  pub status-fails_shared :
      (id : StageId) (now : TimePoint) (w : World) (r : StageRequest) (f : File) (i : FileSizeInfo)
      (g : FileEntity)
      → find_in id w.tables ≡ some r
      → In f r.files
      → f.state ≡ started
      → (T.storage w.set_calls).is_in_progress g.physical_path ≡ value false
      → (T.storage w.set_calls).file_size_info g.physical_path ≡ value i
      → i.is_stub ≡ true
      → In g w.tables.files
      → f.physical_path ≡ g.physical_path
      → is_pending g.state ≡ true
      → (s : StageRequest) × (t : Tables) × Runs
          (status T id now)
          w
          (record { id = id; stage = s })
          t
        × In (finish failed now g) t.files
  status-fails_shared id now w r f i g e m begun idle info stub row path pending =
      let S = T.storage w.set_calls in
      let files = refresh_all S now r.files in
      let (s, u, q, up, same) =
        update_timestamps-IsUpdate (refreshed S now r) (sort-IsSorted by_state-IsWeakOrder files)
          (sort-some by_state files (refresh_all-some S now r.files (some-of_In f r.files m))) in
      let o = (stage_update T id s u (changes S now r.files) now).stage in
      (
        s,
        refreshed_tables T quiet now r id s u S w.tables,
        status-Runs T quiet id now w r s u e q,
        subst (λ g'. In g' (refreshed_tables T quiet now r id s u S w.tables).files)
            (changes_fail S now g pending i idle info stub f r.files m begun path)
            (In-move_each (changes S now r.files) now g (replace o w.tables)
              (In-replace o g w.tables row)),
      )
