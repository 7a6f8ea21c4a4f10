-- ===== src/Service/Completion.antt =====
-- That a stage comes to an end: the status request after the last recall.
use storm_tape.Prelude.{
  ap, ◌==◌, ◌<◌, ◌≡◌, ◌≢◌, refl, subst, ◌⊎◌, inl, inr, Bool, true, false, Option, none, some, ◌∙◌,
  List, [], ◌∷◌, arith, All, All-In, if◌then◌else◌, sym,
}
use storm_tape.Model.{
  TimePoint, StageId, State, submitted, started, cancelled, failed, completed, is_final,
  FileSizeInfo, File, StageRequest,
}
use storm_tape.Algorithm.Sorting.{All-sort, sort-IsSorted}
use storm_tape.Storage.{Storage, Answer, value, failure}
use storm_tape.Database.Session.{World, Tables, ok}
use storm_tape.Database.Sql.{incomplete}
use storm_tape.Database.Updates.{replace}
use storm_tape.Database.Rows.{IsTimed, StageKeys}
use storm_tape.Database.Runs.{IsQuiet}
use storm_tape.Database.Lookup.{find_in}
use storm_tape.Stage.{by_state}
use storm_tape.Stage.Ending.{IsEnd}
use storm_tape.Stage.Update.{update_timestamps-IsUpdate}
use storm_tape.Service.{TapeService, status, stage_update, entity_of}
use storm_tape.Service.Settled.{IsSettled, not_incomplete, stored-IsSettled, kept-IsSettled}
use storm_tape.Service.Files.{refresh, refresh_all, changes}
use storm_tape.Service.Refresh.{
  refreshed, refreshed_tables, refresh-eq-verdict, verdict, moved, by_state-IsWeakOrder, sort-some,
  refresh_all-some, status-Runs,
}

-- There is nothing left to wait for: the file is final, or its recall is over, or it waits for none
-- and is on disk.
pub data IsOver (S : Storage) (f : File) : Type 0 where
  final : is_final f.state ≡ true → IsOver S f
  recalled : f.state ≡ started → S.is_in_progress f.physical_path ≡ value false → IsOver S f
  on_disk :
      (i : FileSizeInfo)
      → f.state ≡ submitted
      → S.is_in_progress f.physical_path ≡ value false
      → S.file_size_info f.physical_path ≡ value i
      → i.is_stub ≡ false
      → IsOver S f

-- The file is final, and has an end.
abbrev pub HasEnded : File → Type 0
HasEnded f = (is_final f.state ≡ true) × (0 < f.finished_at)

ended_time : (s : State) (a b : TimePoint) → is_final s ≡ true → IsTimed s a b → 0 < b
ended_time submitted a b e h = absurd (ground arith)
ended_time started a b e h = absurd (ground arith)
ended_time cancelled a b e h = h.1
ended_time failed a b e h = h.1
ended_time completed a b e h = h.1

final_verdict :
    (s : State) (p : Answer Bool) (i : Answer FileSizeInfo)
    → is_final s ≡ true
    → verdict s p i ≡ none
final_verdict submitted p i e = absurd (ground arith)
final_verdict started p i e = absurd (ground arith)
final_verdict cancelled p i e = refl
final_verdict failed p i e = refl
final_verdict completed p i e = refl

started_verdict :
    (i : Answer FileSizeInfo)
    → (s : State) × (is_final s ≡ true) × (verdict started (value false) i ≡ some s)
started_verdict (value i) = go i.is_stub
  where
    go :
        (b : Bool)
        → (s : State) × (is_final s ≡ true)
          × (◌≡◌ {A = Option State} (some (if b then failed else completed)) (some s))
    go true = (failed, refl, refl)
    go false = (completed, refl, refl)
started_verdict (failure e) = (completed, refl, refl)

-- The verdict on a file that is over is a final state, and none if it is final already.
over-verdict :
    (S : Storage) (f : File)
    → IsOver S f
    → (let v =
          verdict f.state (S.is_in_progress f.physical_path) (S.file_size_info f.physical_path) in
        ((is_final f.state ≡ true) × (v ≡ none))
        ⊎ ((s : State) × (is_final s ≡ true) × (v ≡ some s)))
over-verdict S f (final e) = inl (e, final_verdict f.state _ _ e)
over-verdict S f (recalled e q) =
    inr (rw (e, q) (started_verdict (S.file_size_info f.physical_path)))
over-verdict S f (on_disk i e q q' d) = inr (rw (e, q, q', d) (completed, refl, refl))

moved-HasEnded :
    (f : File) (now : TimePoint) (s : State)
    → 0 < now
    → is_final s ≡ true
    → HasEnded (moved f now (some s)).0
moved-HasEnded f now submitted h e = absurd (ground arith)
moved-HasEnded f now started h e = absurd (ground arith)
moved-HasEnded f now cancelled h e = (refl, h)
moved-HasEnded f now failed h e = (refl, h)
moved-HasEnded f now completed h e = (refl, h)

refresh-HasEnded :
    (S : Storage) (now : TimePoint) (f : File)
    → 0 < now
    → IsTimed f.state f.started_at f.finished_at
    → IsOver S f
    → HasEnded (refresh S now f).0
refresh-HasEnded S now f h t o =
    subst (λ r. HasEnded r.0) (sym (refresh-eq-verdict S now f)) (go (over-verdict S f o))
  where
    go :
        ((is_final f.state ≡ true)
            × (verdict f.state (S.is_in_progress f.physical_path) (S.file_size_info f.physical_path)
                ≡ none))
          ⊎ ((s : State) × (is_final s ≡ true)
              × (verdict f.state
                    (S.is_in_progress f.physical_path)
                    (S.file_size_info f.physical_path)
                  ≡ some s))
        → HasEnded
            (moved f now (
              verdict f.state
                (S.is_in_progress f.physical_path)
                (S.file_size_info f.physical_path))).0
    go (inl (e, n)) = rw n (e, ended_time f.state f.started_at f.finished_at e t)
    go (inr (s, e, n)) = rw n (moved-HasEnded f now s h e)

refresh_all-HasEnded :
    (S : Storage) (now : TimePoint) (fs : List File)
    → 0 < now
    → All (λ f. IsTimed f.state f.started_at f.finished_at) fs
    → All (IsOver S) fs
    → All HasEnded (refresh_all S now fs)
unfolding refresh_all
refresh_all-HasEnded S now [] h t o = tt
refresh_all-HasEnded S now (f ∷ fs) h t o =
    (refresh-HasEnded S now f h t.0 o.0, refresh_all-HasEnded S now fs h t.1 o.1)

IsEnd-ended : (fs : List File) (old new : TimePoint) → All HasEnded fs → IsEnd fs old new → new ≢ 0
IsEnd-ended fs old new h (IsEnd.kept n e) = λ z. n (sym e ∙ z)
IsEnd-ended fs old new h (IsEnd.not_yet f z m n e) =
    let ended : HasEnded f = All-In HasEnded f fs h m in absurd (ground (arith, ended.0))
IsEnd-ended fs old new h (IsEnd.greatest f z all m e le) =
    let ended : HasEnded f = All-In HasEnded f fs h m in λ z'. omega (arith, ended.1)

module _ (T : TapeService) (quiet : IsQuiet T.db) where
  -- The stage that status stores, or keeps as it is if its times have not changed, has an end.
  refreshed-settles :
      (id : StageId) (now : TimePoint) (r s : StageRequest) (u : Bool) (S : Storage) (t : Tables)
      → StageKeys t.stages
      → find_in id t ≡ some r
      → s.completed_at ≢ 0
      → (u ≡ true) ⊎ (s ≡ refreshed S now r)
      → All (λ i. (i == id) ≡ false) (incomplete (refreshed_tables T quiet now r id s u S t))
  refreshed-settles id now r s u S t k e n same =
      not_incomplete id (stage_update T id s u (changes S now r.files) now).stage
        (changes S now r.files) now t (go u same)
    where
      go :
          (u : Bool)
          → (u ≡ true) ⊎ (s ≡ refreshed S now r)
          → All
              (IsSettled id)
              (replace (stage_update T id s u (changes S now r.files) now).stage t).stages
      go true h = stored-IsSettled (entity_of T id s) t n
      go false (inl h) = absurd (ground arith)
      go false (inr h) = kept-IsSettled id t r k e (λ z. n (ap (λ x. x.completed_at) h ∙ z))

  -- If no statement fails, and no file of a stored stage has anything left to wait for, which is that
  -- it is final, or STARTED with its recall over, or SUBMITTED and on disk with no recall, then one
  -- status request ends the stage: it returns it with all its files in a final state and with an end,
  -- and afterwards it is not among the incomplete stages, for which in_progress asks. The clock must be
  -- past the epoch, the ids in the table different, and the times of the files those of valid rows.
  pub status-completes :
      (id : StageId) (now : TimePoint) (w : World) (r : StageRequest)
      → find_in id w.tables ≡ some r
      → StageKeys w.tables.stages
      → r.files ≢ []
      → 0 < now
      → All (λ f. IsTimed f.state f.started_at f.finished_at) r.files
      → All (IsOver (T.storage w.set_calls)) r.files
      → (s : StageRequest) × (after : World) × (status T id now w
          ≡ (ok (record { id = id; stage = s }), after))
        × All HasEnded s.files
        × (s.completed_at ≢ 0)
        × All (λ i. (i == id) ≡ false) (incomplete after.tables)
  status-completes id now w r e k n h t o =
      let S = T.storage w.set_calls in
      let files = refresh_all S now r.files in
      let (s, u, q, up, same) =
        update_timestamps-IsUpdate (refreshed S now r) (sort-IsSorted by_state-IsWeakOrder files)
          (sort-some by_state files (refresh_all-some S now r.files n)) in
      let ran = status-Runs T quiet id now w r s u e q in
      let ended = All-sort HasEnded by_state files (refresh_all-HasEnded S now r.files h t o) in
      let end = IsEnd-ended _ _ s.completed_at ended up.end in
      (
        s,
        ran.after,
        ran.result,
        subst (All HasEnded) (sym up.files) ended,
        end,
        subst (λ t. All (λ i. (i == id) ≡ false) (incomplete t)) (sym ran.tables)
            (refreshed-settles id now r s u S w.tables k e end same),
      )
