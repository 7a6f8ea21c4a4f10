-- ===== src/Storage.antt =====
-- storage.hpp, and ExtendedFileStatus of tape_service.cpp, which asks the storage at most once for
-- what it needs to know of a file.
pub mod Caching
pub mod Local
use storm_tape.Prelude.{ℕ, Bool, true, false, ◌||◌, not, Option, none, some, eqb, if◌then◌else◌}
use storm_tape.Model.{PhysicalPath, Locality, FileSizeInfo}

-- boost::system::result
pub data Answer (A : Type 0) : Type 0 where
  value : A → Answer A
  failure : ℕ → Answer A

-- The virtual methods of Storage. Within one request the answers do not change.
pub record Storage : Type 0 where
  pub is_in_progress : PhysicalPath → Answer Bool
  pub file_size_info : PhysicalPath → Answer FileSizeInfo
  pub is_on_tape : PhysicalPath → Answer Bool

-- The members of ExtendedFileStatus.
pub record ExtendedFileStatus : Type 0 where
  pub ec : Option ℕ
  pub in_progress : Option Bool
  pub size_info : Option FileSizeInfo
  pub on_tape : Option Bool

abbrev pub fresh : ExtendedFileStatus
fresh = record { ec = none; in_progress = none; size_info = none; on_tape = none }

-- `error() != std::error_code{}`
abbrev is_some : {A : Type 0} → Option A → Bool
is_some none = false
is_some (some a) = true

abbrev pub has_error : ExtendedFileStatus → Bool
has_error s = is_some s.ec

module _ (S : Storage) (path : PhysicalPath) where
  read_in_progress : Answer Bool → ExtendedFileStatus → Bool × ExtendedFileStatus
  read_in_progress (failure e) s = (false, record s { ec = some e })
  read_in_progress (value b) s = (b, record s { in_progress = some b })

  ask_in_progress : Option Bool → ExtendedFileStatus → Bool × ExtendedFileStatus
  unfolding read_in_progress
  ask_in_progress (some b) s = (b, s)
  ask_in_progress none s = read_in_progress (S.is_in_progress path) s

  unfoldable pub is_in_progress : ExtendedFileStatus → Bool × ExtendedFileStatus
  unfolding ask_in_progress
  is_in_progress s = ask_in_progress s.in_progress s

  read_stub : Answer FileSizeInfo → ExtendedFileStatus → Bool × ExtendedFileStatus
  read_stub (failure e) s = (false, record s { ec = some e })
  read_stub (value i) s = (i.is_stub, record s { size_info = some i })

  ask_stub : Option FileSizeInfo → ExtendedFileStatus → Bool × ExtendedFileStatus
  unfolding read_stub
  ask_stub (some i) s = (i.is_stub, s)
  ask_stub none s = read_stub (S.file_size_info path) s

  unfoldable pub is_stub : ExtendedFileStatus → Bool × ExtendedFileStatus
  unfolding ask_stub
  is_stub s = ask_stub s.size_info s

  read_size : Answer FileSizeInfo → ExtendedFileStatus → ℕ × ExtendedFileStatus
  read_size (failure e) s = (0, record s { ec = some e })
  read_size (value i) s = (i.size, record s { size_info = some i })

  ask_size : Option FileSizeInfo → ExtendedFileStatus → ℕ × ExtendedFileStatus
  unfolding read_size
  ask_size (some i) s = (i.size, s)
  ask_size none s = read_size (S.file_size_info path) s

  unfoldable pub file_size : ExtendedFileStatus → ℕ × ExtendedFileStatus
  unfolding ask_size
  file_size s = ask_size s.size_info s

  read_on_tape : Answer Bool → ExtendedFileStatus → Bool × ExtendedFileStatus
  read_on_tape (failure e) s = (false, record s { ec = some e })
  read_on_tape (value b) s = (b, record s { on_tape = some b })

  ask_on_tape : Option Bool → ExtendedFileStatus → Bool × ExtendedFileStatus
  unfolding read_on_tape
  ask_on_tape (some b) s = (b, s)
  ask_on_tape none s = read_on_tape (S.is_on_tape path) s

  unfoldable pub is_on_tape : ExtendedFileStatus → Bool × ExtendedFileStatus
  unfolding ask_on_tape
  is_on_tape s = ask_on_tape s.on_tape s

  -- `is_stub() || is_in_progress()`
  off_disk : ExtendedFileStatus → Bool × ExtendedFileStatus
  unfolding is_stub is_in_progress
  off_disk s =
      let (stub, s1) = is_stub s in
      let asked = is_in_progress s1 in if stub then (true, s1) else asked

  locate : Bool → Bool → Locality
  locate true true = Locality.disk_and_tape
  locate true false = Locality.disk
  locate false true = Locality.tape
  locate false false = Locality.lost

  unfoldable pub locality : ExtendedFileStatus → Locality
  unfolding file_size off_disk is_on_tape locate
  locality s =
      let (size, s1) = file_size s in
      let (off, s2) = off_disk s1 in
      let (tape, s3) = is_on_tape s2 in
      if has_error s1
      then Locality.unavailable
      else if eqb size 0
      then Locality.none
      else if has_error s3
      then Locality.unavailable
      else locate (not off) tape
