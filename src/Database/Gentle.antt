-- ===== src/Database/Gentle.antt =====
-- The statements that update files keep every row well formed, and its key.
use storm_tape.Prelude.{
  ◌<◌, ◌≡◌, refl, Bool, true, false, ◌&&◌, Option, none, some, arith, if◌then◌else◌, ◌==◌,
}
use storm_tape.Model.{
  TimePoint, State, submitted, started, cancelled, failed, completed, is_final, PhysicalPath,
}
use storm_tape.Database.Session.{FileEntity}
use storm_tape.Database.Sql.{update_where, finish, start, state_eq, physical_update}
use storm_tape.Database.Rows.{IsRow, IsGentle}

-- The end of a file, in whatever state it was.
finish-IsRow :
    (state : State) (tp : TimePoint) (f : FileEntity)
    → is_final state ≡ true
    → 0 < tp
    → IsRow f
    → IsRow (finish state tp f)
finish-IsRow submitted tp f e h r = cc
finish-IsRow started tp f e h r = cc
finish-IsRow cancelled tp f e h r = (ground arith, h)
finish-IsRow failed tp f e h r = (ground arith, h)
finish-IsRow completed tp f e h r = (ground arith, h)

start-IsRow :
    (tp : TimePoint) (f : FileEntity)
    → state_eq f.state submitted ≡ true
    → 0 < tp
    → IsRow f
    → IsRow (start tp f)
start-IsRow tp f e h r = (h, ground arith)

pub finish-IsGentle :
    (p : FileEntity → Bool) (state : State) (tp : TimePoint)
    → is_final state ≡ true
    → 0 < tp
    → IsGentle (update_where p (finish state tp))
finish-IsGentle p state tp e h = record {
  stage_id = λ f. ground arith;
  logical_path = λ f. ground arith;
  row = λ f r. go f (p f) (finish-IsRow state tp f e h r) r;
}
  where
    go :
        (f : FileEntity) (b : Bool)
        → IsRow (finish state tp f)
        → IsRow f
        → IsRow (if b then finish state tp f else f)
    go f true h r = h
    go f false h r = r

-- A statement, where there is one, is gentle.
abbrev pub Gentle : Option (FileEntity → FileEntity) → Type 0
Gentle none = Unit
Gentle (some g) = IsGentle g

pub physical_update-Gentle :
    (path : PhysicalPath) (state : State) (tp : TimePoint)
    → 0 < tp
    → Gentle (physical_update path state tp)
unfolding physical_update
physical_update-Gentle path submitted tp h = tt
physical_update-Gentle path started tp h = record {
  stage_id = λ f. ground arith;
  logical_path = λ f. ground arith;
  row = λ f r. go f (f.physical_path == path) (state_eq f.state submitted) refl r;
}
  where
    go :
        (f : FileEntity) (b c : Bool)
        → state_eq f.state submitted ≡ c
        → IsRow f
        → IsRow (if b && c then start tp f else f)
    go f true true e r = start-IsRow tp f e h r
    go f true false e r = r
    go f false c e r = r
physical_update-Gentle path cancelled tp h = finish-IsGentle _ cancelled tp refl h
physical_update-Gentle path failed tp h = finish-IsGentle _ failed tp refl h
physical_update-Gentle path completed tp h = finish-IsGentle _ completed tp refl h
