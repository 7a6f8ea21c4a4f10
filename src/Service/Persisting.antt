-- ===== src/Service/Persisting.antt =====
-- TapeService::status and what is found of the stage afterwards, when no statement fails.
use mathlib.Core.Quot
use storm_tape.Prelude.{
  ◌≡◌, ◌≢◌, refl, sym, ap, subst, ◌∙◌, inl, inr, ◌⊎◌, Bool, true, false, none, some, List, [], ◌∷◌,
  map, arith, All, keep, if◌then◌else◌, Bool-cases, ==_iff,
}
use storm_tape.Model.{TimePoint, StageId, File, StageRequest}
use storm_tape.Algorithm.{sort}
use storm_tape.Algorithm.Sorting.{sort-perm, sort-IsSorted, All-sort}
use storm_tape.Stage.{by_state}
use storm_tape.Stage.Update.{IsUpdate, update_timestamps-IsUpdate}
use storm_tape.Database.Session.{World, Tables, FileEntity}
use storm_tape.Database.Sql.{has_stage, in_stage, rows_of, logical_lt, to_file}
use storm_tape.Database.Rows.{IsRow, IsValid}
use storm_tape.Database.Runs.{IsQuiet, Runs}
use storm_tape.Database.Lookup.{find_in}
use storm_tape.Database.Updates.{replace}
use storm_tape.Database.Owned.{IsOwned}
use storm_tape.Database.Abstract.{
  StoredStage, view, forget, bag, map_bag, answer, in_turn, everywhere, set_times, on_stage,
  map_files,
}
use storm_tape.Database.Abstract.Removals.{rows-of_missing}
use storm_tape.Database.Abstract.Changes.{each_physical, view-move_each, view-replaced}
use storm_tape.Database.Abstract.Finding.{forget_found, found-eq-answer}
use storm_tape.Database.Abstract.Owning.{move_each-IsOwned, replace-IsOwned}
use storm_tape.Service.{TapeService, status, entity_of}
use storm_tape.Service.Files.{refresh_all, changes}
use storm_tape.Service.Refresh.{
  refreshed, refreshed_tables, status-Runs, by_state-IsWeakOrder, sort-some, refresh_all-some,
}
use storm_tape.Service.Changes.{IsTimedFile, DistinctPhysical, all_changes}

pub files-of_found :
    (id : StageId) (t : Tables) (r : StageRequest)
    → find_in id t ≡ some r
    → r.files ≡ map to_file (rows_of id t)
files-of_found id t r e = ground arith

-- A stage that is found with a file is the one of the store.
view-of_found :
    (id : StageId) (t : Tables) (r : StageRequest)
    → IsOwned t
    → find_in id t ≡ some r
    → r.files ≢ []
    → view t id ≡ some (forget r)
unfolding view rows_of sort
view-of_found id t r owned e n = elim (Bool-cases (has_stage id t.stages)) [
  | inl here ↦
      let same = sym (found-eq-answer id t owned) ∙ ap forget_found e in rw here (rw here at same)
  | inr missing ↦ absurd (
      n (
        files-of_found id t r e
        ∙ ap (λ fs. map to_file (sort logical_lt fs))
            (rows-of_missing id t.stages t.files missing owned)))
]

timed-keep :
    (id : StageId) (fs : List FileEntity) → All IsRow fs → All IsRow (keep (in_stage id) fs)
timed-keep id [] h = tt
timed-keep id (f ∷ fs) h = ground (arith, timed-keep id fs h.1)

timed-to_file : (fs : List FileEntity) → All IsRow fs → All IsTimedFile (map to_file fs)
timed-to_file [] h = tt
timed-to_file (f ∷ fs) h = (h.0, timed-to_file fs h.1)

pub timed-found :
    (id : StageId) (t : Tables) (r : StageRequest)
    → All IsRow t.files
    → find_in id t ≡ some r
    → All IsTimedFile r.files
unfolding rows_of
timed-found id t r h e = subst (All IsTimedFile) (sym (files-of_found id t r e)) (
    timed-to_file _
      (All-sort IsRow logical_lt (keep (in_stage id) t.files) (timed-keep id t.files h)))

-- The stage with other times and files.
abbrev with_times : StageRequest → List File → StoredStage
with_times s fs = forget (record s { files = fs })

set_times-at :
    (T : TapeService) (id : StageId) (r s : StageRequest) (u : Bool) (t : Tables)
    → view t id ≡ some (forget r)
    → (u ≡ true)
      ⊎ (s.created_at ≡ r.created_at)
        × (s.started_at ≡ r.started_at)
        × (s.completed_at ≡ r.completed_at)
    → set_times (if u then some (entity_of T id s) else none) (view t) id
      ≡ some (with_times s r.files)
set_times-at T id r s true t e h = rw ((==_iff id id).1 refl, e)
set_times-at T id r s false t e (inl h) = cc
set_times-at T id r s false t e (inr h) = e ∙ rw (h.0, h.1, h.2)

-- The changed files are those of the stage that status returns, which sorts them.
sorted_bag :
    (G : File → File) (r s : StageRequest) (files : List File)
    → map G r.files ≡ files
    → s.files ≡ sort by_state files
    → on_stage (map_files G) (some (with_times s r.files)) ≡ some (forget s)
unfolding map_bag
sorted_bag G r s files e e' =
    ap
      (λ b. some (record {
        created_at = s.created_at;
        started_at = s.started_at;
        completed_at = s.completed_at;
        files = b;
      }))
      (ap bag e ∙ sym (Quot.sound (sort-perm by_state files)) ∙ ap bag (sym e'))

module _ (T : TapeService) (quiet : IsQuiet T.db) where
  -- For a stored stage with a file, on valid tables where no file is without its stage, and with no two
  -- files of the stage on one physical path: if no statement fails, the stage that status returns is
  -- what is found from then on, its times included, up to the order of its files; it is the stage with
  -- its files as the storage knows them, sorted by state, and its times brought up to date.
  pub status-persists :
      (id : StageId) (now : TimePoint) (w : World) (r : StageRequest)
      → find_in id w.tables ≡ some r
      → r.files ≢ []
      → DistinctPhysical r.files
      → IsValid w.tables
      → IsOwned w.tables
      → (s : StageRequest) × (t : Tables) × Runs
          (status T id now)
          w
          (record { id = id; stage = s })
          t
        × (forget_found (find_in id t) ≡ some (forget s))
        × IsUpdate (refreshed (T.storage w.set_calls) now r) s
  status-persists id now w r e n distinct valid owned =
      let S = T.storage w.set_calls in
      let files = refresh_all S now r.files in
      let (s, u, q, up, same) =
        update_timestamps-IsUpdate (refreshed S now r) (sort-IsSorted by_state-IsWeakOrder files)
          (sort-some by_state files (refresh_all-some S now r.files n)) in
      let o = if u then some (entity_of T id s) else none in
      let t = refreshed_tables T quiet now r id s u S w.tables in
      let owned' =
        move_each-IsOwned (changes S now r.files) now (replace o w.tables)
          (replace-IsOwned o w.tables owned) in
      (
        s,
        t,
        status-Runs T quiet id now w r s u e q,
        found-eq-answer id t owned'
            ∙ ap (answer id) (
                ap (λ m. m id)
                  (view-move_each (changes S now r.files) now (replace o w.tables)
                    ∙ ap (everywhere (in_turn (each_physical now) (changes S now r.files)))
                        (view-replaced o w.tables))
                ∙ ap (on_stage (map_files (in_turn (each_physical now) (changes S now r.files)))) (
                    set_times-at T id r s u w.tables (view-of_found id w.tables r owned e n)
                      (elim same [
                        | inl h ↦ inl h
                        | inr h ↦ inr (
                          ap (λ x. x.created_at) h,
                          ap (λ x. x.started_at) h,
                          ap (λ x. x.completed_at) h,
                        )
                      ]))
                ∙ sorted_bag (in_turn (each_physical now) (changes S now r.files)) r s files
                    (all_changes S now r.files (timed-found id w.tables r valid.rows e) distinct)
                    up.files),
        up,
      )
