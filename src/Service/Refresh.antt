-- ===== src/Service/Refresh.antt =====
-- TapeService::status, when no statement of the database fails.
use storm_tape.Prelude.{
  ◌≡◌, ◌≢◌, refl, sym, ap, subst, inl, inr, Bool, true, false, Option, none, some, List, [], ◌∷◌,
  arith, In, if◌then◌else◌, eqb, Bool-cases,
}
use storm_tape.Model.{
  TimePoint, StageId, PhysicalPath, State, submitted, started, cancelled, failed, completed,
  FileSizeInfo, File, StageRequest,
}
use storm_tape.Algorithm.{sort}
use storm_tape.Algorithm.Sorting.{IsWeakOrder, In-sort}
use storm_tape.Stage.{by_state, is_submitted, update_timestamps}
use storm_tape.Storage.{Storage, Answer, value, failure}
use storm_tape.Database
use storm_tape.Database.Session.{World, Tables, undefined}
use storm_tape.Database.Runs.{
  IsQuiet, Runs, Runs-pure, Runs-bind, Throws, Throws-bind, Throws-raise,
}
use storm_tape.Database.Lookup.{find_in, find-Runs}
use storm_tape.Database.Updates.{move_each, replace, update_stage-Runs}
use storm_tape.Service.{TapeService, status, status_of, store_status, storage_now, stage_update}
use storm_tape.Service.Files.{Refreshed, refresh, refresh_all, refresh_by, changes}

pub by_state-IsWeakOrder : IsWeakOrder by_state
by_state-IsWeakOrder = record {
  asymm = λ f g h. ground arith;
  le_trans = λ f g k h h'. ground arith;
}

-- The request with its files as the storage now knows them, sorted by state.
abbrev pub refreshed : Storage → TimePoint → StageRequest → StageRequest
refreshed S now r = record r { files = sort by_state (refresh_all S now r.files) }

pub sort-some : {A : Type 0} (lt : A → A → Bool) (xs : List A) → xs ≢ [] → sort lt xs ≢ []
sort-some lt [] n = λ e. n refl
sort-some lt (x ∷ xs) n = λ e. subst (In x) e (In-sort lt x (x ∷ xs) (inl refl))

pub refresh_all-some :
    (S : Storage) (now : TimePoint) (fs : List File) → fs ≢ [] → refresh_all S now fs ≢ []
unfolding refresh_all
refresh_all-some S now [] n = n
refresh_all-some S now (f ∷ fs) n = λ e. ground arith

update_timestamps-nil :
    (r : StageRequest) → r.files ≡ [] → r.completed_at ≡ 0 → update_timestamps r ≡ none
unfolding update_timestamps
update_timestamps-nil r e z = elim (Bool-cases (eqb r.started_at 0)) [
  | inl h ↦ rw (h, e)
  | inr h ↦ rw (h, z, e)
]

module _ (T : TapeService) (quiet : IsQuiet T.db) where
  pub storage_now-Runs : (w : World) → Runs (storage_now T) w (T.storage w.set_calls) w.tables
  unfolding storage_now
  storage_now-Runs w = record { after = w; result = refl; tables = refl; calls = refl }

  -- The tables after status.
  abbrev pub refreshed_tables :
      TimePoint → StageRequest → StageId → StageRequest → Bool → Storage → Tables → Tables
  refreshed_tables now r id s u S t =
      move_each (changes S now r.files) now
        (replace (stage_update T id s u (changes S now r.files) now).stage t)

  store_status-Runs :
      (id : StageId) (now : TimePoint) (files : List (PhysicalPath × State)) (s : StageRequest)
      (u : Bool) (w : World) (t : Tables)
      → w.tables ≡ t
      → Runs
          (store_status T id now files (some (s, u)))
          w
          (record { id = id; stage = s })
          (move_each files now (replace (stage_update T id s u files now).stage t))
  unfolding store_status
  store_status-Runs id now files s u w t e =
      Runs-bind _ _ w true _ _ _
        (update_stage-Runs T.db quiet (stage_update T id s u files now) w t e)
        λ w' e' _. subst (Runs _ w' _) e' (Runs-pure w' _)

  pub status-Runs :
      (id : StageId) (now : TimePoint) (w : World) (r s : StageRequest) (u : Bool)
      → find_in id w.tables ≡ some r
      → update_timestamps (refreshed (T.storage w.set_calls) now r) ≡ some (s, u)
      → Runs
          (status T id now)
          w
          (record { id = id; stage = s })
          (refreshed_tables now r id s u (T.storage w.set_calls) w.tables)
  unfolding status status_of
  status-Runs id now w r s u e q =
      Runs-bind (Database.find T.db id) _ w (some r) _ w.tables _
        (subst (λ o. Runs (Database.find T.db id) w o w.tables) e (find-Runs T.db quiet id w))
        λ w1 e1 c1.
          Runs-bind (storage_now T) _ w1 (T.storage w.set_calls) _ w.tables _
            (subst (λ c. Runs (storage_now T) w1 (T.storage c) w.tables) c1
              (subst (Runs (storage_now T) w1 _) e1 (storage_now-Runs w1)))
            λ w2 e2 _.
              subst
                (λ o.
                  Runs (store_status T id now (changes (T.storage w.set_calls) now r.files) o) w2
                    (record { id = id; stage = s })
                    (refreshed_tables now r id s u (T.storage w.set_calls) w.tables))
                (sym q)
                (store_status-Runs id now (changes (T.storage w.set_calls) now r.files) s u w2
                  w.tables e2)

  -- A stage that is stored with no file and is not completed: if no statement fails, status reaches
  -- undefined behaviour, the back or front of an empty vector.
  pub status-no_files :
      (id : StageId) (now : TimePoint) (w : World) (r : StageRequest)
      → find_in id w.tables ≡ some r
      → r.files ≡ []
      → r.completed_at ≡ 0
      → Throws (status T id now) w undefined
  unfolding status status_of store_status sort
  status-no_files id now w r e f z =
      Throws-bind (Database.find T.db id) _ w (some r) w.tables _ refl
        (subst (λ o. Runs (Database.find T.db id) w o w.tables) e (find-Runs T.db quiet id w))
        λ w1 e1 _.
          Throws-bind (storage_now T) _ w1 (T.storage w1.set_calls) w1.tables _ refl
            (storage_now-Runs w1)
            λ w2 _ _.
              subst
                (λ o.
                  Throws (store_status T id now (changes (T.storage w1.set_calls) now r.files) o) w2
                    undefined)
                (sym (
                  update_timestamps-nil (refreshed (T.storage w1.set_calls) now r)
                    (ap (λ fs. sort by_state (refresh_all (T.storage w1.set_calls) now fs)) f) z))
                (Throws-raise w2 undefined)

-- What becomes of a file in a state, by the two answers of the storage that `status` asks for: whether
-- a recall runs, and the size information.
abbrev pub verdict : State → Answer Bool → Answer FileSizeInfo → Option State
verdict started (value true) i = none
verdict started p (value i) = some (if i.is_stub then failed else completed)
verdict started p (failure e) = some completed
verdict submitted (value true) i = some started
verdict submitted (value false) (value i) = if i.is_stub then none else some completed
verdict submitted (value false) (failure e) = some completed
verdict submitted (failure e) i = some failed
verdict s p i = none

-- The file after the verdict, and the change to store.
abbrev pub moved : File → TimePoint → Option State → Refreshed
moved f now none = (f, none)
moved f now (some started) = (record f { state = started; started_at = now }, some started)
moved f now (some s) = (
  record f {
    state = s;
    started_at = if is_submitted f.state then now else f.started_at;
    finished_at = now;
  },
  some s,
)

-- What status makes of a file is decided by its state and the two answers of the storage alone, as
-- `verdict` lists it: a recall that runs starts a file; a file whose recall is over is COMPLETED, or
-- FAILED if it is still a stub; a final file is kept. Answers that fail count as "no": a STARTED file
-- about which the storage knows nothing is COMPLETED.
pub refresh-eq-verdict :
    (S : Storage) (now : TimePoint) (f : File)
    → refresh S now f
      ≡ moved f now
          (verdict f.state (S.is_in_progress f.physical_path) (S.file_size_info f.physical_path))
unfolding refresh
refresh-eq-verdict S now f =
    go f.state refl (S.is_in_progress f.physical_path) (S.file_size_info f.physical_path) refl refl
  where
    go :
        (s : State)
        → f.state ≡ s
        → (p : Answer Bool) → (i : Answer FileSizeInfo) → S.is_in_progress f.physical_path ≡ p
        → S.file_size_info f.physical_path ≡ i
        → refresh_by S now s f ≡ moved f now (verdict s p i)
    go submitted q p i e e' = ground arith
    go started q p i e e' = ground arith
    go cancelled q p i e e' = refl
    go failed q p i e e' = refl
    go completed q p i e e' = refl
