-- ===== src/Service/Life.antt =====
-- The life of a file, as the rows of the table File show it: a relation of steps, which every history
-- of calls follows.
pub mod Forward
use storm_tape.Prelude.{
  ℕ, zero, suc, ◌+◌, ◌≤◌, ◌<◌, ◌≡◌, ◌≢◌, ap, ◌∙◌, ◌⊎◌, true, List, All, In, Option,
}
use storm_tape.Model.{TimePoint, State, submitted, cancelled, is_final}
use storm_tape.Database.Session.{FileEntity, Tables}
use storm_tape.Database.Sql.{start, finish, is_pending}
use storm_tape.Database.Closed.{Closed, IsFirst}

-- What one statement may do to a row: a waiting file starts, a file that is not final ends, and any
-- file is cancelled, whatever its state.
pub data Step (f g : FileEntity) : Type 0 where
  starts : (tp : TimePoint) → 0 < tp → f.state ≡ submitted → g ≡ start tp f → Step f g
  ends :
      (s : State) (tp : TimePoint)
      → 0 < tp
      → is_final s ≡ true
      → is_pending f.state ≡ true
      → g ≡ finish s tp f
      → Step f g
  cancels : (tp : TimePoint) → 0 < tp → g ≡ finish cancelled tp f → Step f g

pub data Life (f : FileEntity) : FileEntity → Type 0 where
  here : Life f f
  next : {g h : FileEntity} → Life f g → Step g h → Life f h

-- A row that descends from a row that was there, or that a call of `stage` has written.
abbrev pub HasLife : List FileEntity → FileEntity → Type 0
HasLife old g = (f : FileEntity) × (In f old ⊎ IsFirst f) × Life f g

abbrev AllLive : List FileEntity → Tables → Type 0
AllLive old t = All (HasLife old) t.files
