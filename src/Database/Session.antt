-- ===== src/Database/Session.antt =====
-- The state that the service works on, and the monad of its operations: a SQL session whose
-- statements may throw, with the exceptions that cross the program.
use storm_tape.Prelude.{ℕ, ◌+◌, Bool, false, Option, none, some, List, Text, if◌then◌else◌}
use storm_tape.Model.{TimePoint, StageId, LogicalPath, PhysicalPath, State}

-- A row of the table Stage.
pub record StageEntity : Type 0 where
  pub id : StageId
  pub created_at : TimePoint
  pub started_at : TimePoint
  pub completed_at : TimePoint

-- A row of the table File. Its column `locality` is always written as zero and never read.
pub record FileEntity : Type 0 where
  pub stage_id : StageId
  pub logical_path : LogicalPath
  pub physical_path : PhysicalPath
  pub state : State
  pub started_at : TimePoint
  pub finished_at : TimePoint

pub record Tables : Type 0 where
  pub stages : List StageEntity
  pub files : List FileEntity

-- What the program leaves to soci and SQLite.
pub record Engine : Type 0 where
  -- whether the statement with this number throws a soci_error; a statement that throws has changed
  -- nothing
  pub fails : ℕ → Bool
  -- the order of the rows of a SELECT with no ORDER BY
  pub row_order : List Text → List Text
  -- whether fetching into an empty vector throws
  pub empty_fetch_throws : Bool

-- The session: the tables, the number of statements issued, and the calls of setxattr made so far
-- (a path and a name each).
pub record World : Type 0 where
  pub tables : Tables
  pub issued : ℕ
  pub set_calls : List (PhysicalPath × Text)

-- What is thrown: a soci_error, a StageNotFound, a BadRequest with its message; and `undefined`, where the C++ code has
-- undefined behaviour or aborts.
pub data Error : Type 0 where
  soci_error : Error
  stage_not_found : StageId → Error
  bad_request : Text → Error
  undefined : Error

pub data Result (A : Type 0) : Type 0 where
  ok : A → Result A
  err : Error → Result A

abbrev pub Db : Type 0 → Type 0
Db A = World → Result A × World

abbrev pub continue : {A B : Type 0} → Result A → (A → Db B) → Db B
continue (ok a) f w = f a w
continue (err e) f w = (err e, w)

unfoldable pub pure : {A : Type 0} → A → Db A
pure a w = (ok a, w)

unfoldable pub raise : {A : Type 0} → Error → Db A
raise e w = (err e, w)

infixl 10 ◌>>=◌ ◌>>◌
unfoldable pub ◌>>=◌ : {A B : Type 0} → Db A → (A → Db B) → Db B
unfolding pure raise
◌>>=◌ m f w = continue (m w).0 f (m w).1

abbrev pub ◌>>◌ : {A B : Type 0} → Db A → Db B → Db B
m >> n = m >>= λ _. n

abbrev pub tick : World → World
tick w = record w { issued = w.issued + 1 }

-- A statement that writes: `none` is a violated constraint, which throws.
abbrev pub outcome : Option Tables → World → Result Unit × World
outcome none w = (err soci_error, tick w)
outcome (some t) w = (ok tt, record (tick w) { tables = t })

module _ (E : Engine) where
  unfoldable pub execute : (Tables → Option Tables) → Db Unit
  execute f w = if E.fails w.issued then (err soci_error, tick w) else outcome (f w.tables) w

  -- A statement that reads.
  unfoldable pub query : {A : Type 0} → (Tables → A) → Db A
  query f w = if E.fails w.issued then (err soci_error, tick w) else (ok (f w.tables), tick w)

  -- `transaction tr{sql}; …; tr.commit()`: BEGIN and COMMIT are statements, and when anything throws
  -- the destructor rolls back.
  abbrev pub committed : {A : Type 0} → Tables → Result A → World → Result A × World
  committed before (ok a) w =
      if E.fails w.issued
      then (err soci_error, record (tick w) { tables = before })
      else (ok a, tick w)
  committed before (err e) w = (err e, record w { tables = before })

  unfoldable pub transaction : {A : Type 0} → Db A → Db A
  transaction m w =
      if E.fails w.issued
      then (err soci_error, tick w)
      else committed w.tables (m (tick w)).0 (m (tick w)).1

-- `try { …; return b; } catch (soci::soci_error const&) { return false; }`
abbrev pub caught : Result Bool → Result Bool
caught (ok b) = ok b
caught (err soci_error) = ok false
caught (err e) = err e

unfoldable pub attempt : Db Bool → Db Bool
attempt m w = (caught (m w).0, (m w).1)
