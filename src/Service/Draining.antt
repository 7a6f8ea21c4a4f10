-- ===== src/Service/Draining.antt =====
-- Calls of take_over one after the other, when no statement of the database fails: how many paths are
-- still to be taken, and when none is.
use mathlib.Core.List.{Perm}
use storm_tape.Prelude.{
  ℕ, ◌+◌, ◌-◌, ◌<◌, ◌≡◌, sym, ap, subst, ◌∙◌, Bool, true, false, ◌&&◌, not, List, [], ◌∷◌, arith,
  All, Text, length, take, eqb, if◌then◌else◌,
}
use storm_tape.Model.{TimePoint, submitted}
use storm_tape.Host.{SetCalls}
use storm_tape.Database
use storm_tape.Database.Session.{World, Tables, Engine}
use storm_tape.Database.Sql.{paths_in, contains}
use storm_tape.Database.Counting.{
  count, count-append, length-of_count, contains-of_count, drop, take-drop, length-drop, count-perm,
}
use storm_tape.Database.Runs.{IsQuiet, Runs, Runs-query}
use storm_tape.Service.{TapeService, ready_take_over}
use storm_tape.Service.Groups.{taken_tables, groups}
use storm_tape.Service.TakeOver.{take_over-Ran}
use storm_tape.Service.Calls.{Call, takes_over, serve, run}
use storm_tape.Service.Waiting.{waits, count-paths_in, waits-taken}

-- How many paths ready_take_over reports.
abbrev pub waiting : Tables → ℕ
waiting t = length (paths_in submitted t)

-- The rows of a SELECT come each once, in any order.
abbrev pub IsOrder : Engine → Type 0
IsOrder E = (ps : List Text) → Perm (E.row_order ps) ps

module _ (T : TapeService) (order : IsOrder T.db) where
  waiting-taken :
      (calls : SetCalls) (n : ℕ) (now : TimePoint) (t : Tables)
      → waiting
          (taken_tables (groups T calls (take n (T.db.row_order (paths_in submitted t)))) now t)
        ≡ waiting t - n
  waiting-taken calls n now t =
      let ps = paths_in submitted t in
      let rows = T.db.row_order ps in
      let first = take n rows in
      let t' = taken_tables (groups T calls first) now t in
      let same_length = length-of_count rows ps (λ p. count-perm p rows ps (order ps)) in
      omega (
        arith,
        length-of_count (paths_in submitted t') (drop n rows) (λ p.
            remaining (waits p t.files) (waits p t'.files) (contains p first) (count p first)
              (count p (drop n rows)) (count p (paths_in submitted t')) (count-paths_in p t')
              (waits-taken T p calls first now t) (contains-of_count p first)
              (sym (count-append p first (drop n rows))
                ∙ ap (count p) (take-drop n rows)
                ∙ count-perm p rows ps (order ps)
                ∙ count-paths_in p t)),
        length-drop n rows,
        same_length,
      )
    where
      remaining :
          (w w' c : Bool) (in_first in_rest left : ℕ)
          → left ≡ (if w' then 1 else 0)
          → w' ≡ (w && not c)
          → c ≡ (if eqb in_first 0 then false else true)
          → in_first + in_rest ≡ (if w then 1 else 0)
          → left ≡ in_rest
      remaining w w' c in_first in_rest left e e1 e2 e3 = ground arith

-- The calls of take_over, each for a number of files at a time.
abbrev pub all_take_over : List (ℕ × TimePoint) → List Call
all_take_over [] = []
all_take_over ((n, now) ∷ rest) = takes_over n now ∷ all_take_over rest

abbrev pub requested : List (ℕ × TimePoint) → ℕ
requested [] = 0
requested ((n, now) ∷ rest) = n + requested rest

module _ (T : TapeService) (quiet : IsQuiet T.db) (order : IsOrder T.db) where
  take_over-waiting :
      (n : ℕ) (now : TimePoint) (w : World)
      → 0 < n
      → waiting (serve T (takes_over n now) w).tables ≡ waiting w.tables - n
  unfolding serve
  take_over-waiting n now w pos =
      let ran = take_over-Ran T quiet n now w (ground arith) in
      ap (λ x. waiting x.1.tables) ran.result
      ∙ ap waiting ran.tables
      ∙ waiting-taken T order w.set_calls n now w.tables

  pub waiting-run :
      (cs : List (ℕ × TimePoint)) (w : World)
      → All (λ c. 0 < c.0) cs
      → waiting (run T (all_take_over cs) w).tables ≡ waiting w.tables - requested cs
  unfolding run
  waiting-run [] w h = omega arith
  waiting-run ((n, now) ∷ cs) w h =
      omega
        (arith, waiting-run cs (serve T (takes_over n now) w) h.1, take_over-waiting n now w h.0)

  ready-Runs : (w : World) → Runs (ready_take_over T) w (waiting w.tables) w.tables
  unfolding ready_take_over Database.count_files
  ready-Runs w = Runs-query T.db quiet waiting w

  -- If no statement fails, and the engine gives each row of a SELECT once, each call of take_over for n > 0 files takes n of the waiting paths, or all of
  -- them if they are fewer: after any number of such calls, ready_take_over answers with the number of
  -- paths that waited before less the files requested, which is 0 once as many have been requested.
  pub take_overs-drain :
      (cs : List (ℕ × TimePoint)) (w : World)
      → All (λ c. 0 < c.0) cs
      → Runs
          (ready_take_over T)
          (run T (all_take_over cs) w)
          (waiting w.tables - requested cs)
          (run T (all_take_over cs) w).tables
  take_overs-drain cs w h =
      let w' = run T (all_take_over cs) w in
      subst (λ n. Runs (ready_take_over T) w' n w'.tables) (waiting-run cs w h) (ready-Runs w')
