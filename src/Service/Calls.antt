-- ===== src/Service/Calls.antt =====
-- The service as a server sees it: a history of calls, each of which may fail and leaves the tables as
-- it left them.
use storm_tape.Prelude.{ℕ, ◌<◌, List, [], ◌∷◌, All}
use storm_tape.Model.{TimePoint, StageId, LogicalPath, StageRequest}
use storm_tape.Database.Session.{World, Tables}
use storm_tape.Database.Rows.{IsValid}
use storm_tape.Database.Closed.{Closed}
use storm_tape.Database.Valid.{IsValid-Closed}
use storm_tape.Service.{
  TapeService, stage, status, cancel, erase, release, archive_info, ready_take_over,
}
use storm_tape.Service.Recall.{take_over, in_progress_all, in_progress}
use storm_tape.Service.Invariant.{
  IsNew, stage-Keeps, status-Keeps, cancel-Keeps, erase_stage-Keeps, release-Keeps,
  archive_info-Keeps, ready_take_over-Keeps, take_over-Keeps, in_progress_all-Keeps,
  in_progress-Keeps,
}

-- The public methods of TapeService, with the values that a call reads from the clock and from the
-- UUID generator.
pub data Call : Type 0 where
  stages : StageId → (LogicalPath → TimePoint) → StageRequest → Call
  statuses : StageId → TimePoint → Call
  cancels : StageId → List LogicalPath → TimePoint → Call
  erases : StageId → Call
  releases : StageId → List LogicalPath → Call
  archives : List LogicalPath → Call
  readies : Call
  takes_over : ℕ → TimePoint → Call
  asks_all : (StageId → TimePoint) → Call
  asks : ℕ → ℕ → Call

-- The clock is past the epoch, and the files of a stage request are as from_json makes them.
abbrev pub IsSane : Call → Type 0
IsSane (stages id clock r) = ((p : LogicalPath) → 0 < clock p) × All IsNew r.files
IsSane (statuses id now) = 0 < now
IsSane (cancels id ps now) = 0 < now
IsSane (takes_over n now) = 0 < now
IsSane (asks_all clock) = (id : StageId) → 0 < clock id
IsSane _ = Unit

module _ (T : TapeService) where
  unfoldable pub serve : Call → World → World
  serve (stages id clock r) w = (stage T id clock r w).1
  serve (statuses id now) w = (status T id now w).1
  serve (cancels id ps now) w = (cancel T id ps now w).1
  serve (erases id) w = (erase T id w).1
  serve (releases id ps) w = (release T id ps w).1
  serve (archives ps) w = (archive_info T ps w).1
  serve readies w = (ready_take_over T w).1
  serve (takes_over n now) w = (take_over T n now w).1
  serve (asks_all clock) w = (in_progress_all T clock w).1
  serve (asks n precise) w = (in_progress T n precise w).1

  unfoldable pub run : List Call → World → World
  unfolding serve
  run [] w = w
  run (c ∷ cs) w = run cs (serve c w)

  pub serve-Keeps :
      {P : Tables → Type 0} (k : Closed P) (c : Call) (w : World)
      → IsSane c
      → P w.tables
      → P (serve c w).tables
  unfolding serve
  serve-Keeps k (stages id clock r) w h v = (stage-Keeps k T id clock r h.0 h.1).at w v
  serve-Keeps k (statuses id now) w h v = (status-Keeps k T id now h).at w v
  serve-Keeps k (cancels id ps now) w h v = (cancel-Keeps k T id ps now h).at w v
  serve-Keeps k (erases id) w h v = (erase_stage-Keeps k T id).at w v
  serve-Keeps k (releases id ps) w h v = (release-Keeps k T id ps).at w v
  serve-Keeps k (archives ps) w h v = (archive_info-Keeps k T ps).at w v
  serve-Keeps k readies w h v = (ready_take_over-Keeps k T).at w v
  serve-Keeps k (takes_over n now) w h v = (take_over-Keeps k T n now h).at w v
  serve-Keeps k (asks_all clock) w h v = (in_progress_all-Keeps k T clock h).at w v
  serve-Keeps k (asks n precise) w h v = (in_progress-Keeps k T n precise).at w v

  -- What the statements of the service allow for is kept by any history of calls whose clock is past the
  -- epoch and whose requests have new files, whatever statements fail.
  pub run-Keeps :
      {P : Tables → Type 0} (k : Closed P) (cs : List Call) (w : World)
      → All IsSane cs
      → P w.tables
      → P (run cs w).tables
  unfolding run
  run-Keeps k [] w h v = v
  run-Keeps k (c ∷ cs) w h v = run-Keeps k cs (serve c w) h.1 (serve-Keeps k c w h.0 v)

  -- After any history of calls whose clock is past the epoch and whose requests have new files, and
  -- whatever statements the database fails, the tables are valid if they were: no two rows have one
  -- key, a file that is not SUBMITTED has a start time, a file in a final state has an end time, and no
  -- other file has one.
  pub run-IsValid :
      (cs : List Call) (w : World) → All IsSane cs → IsValid w.tables → IsValid (run cs w).tables
  run-IsValid = run-Keeps IsValid-Closed
