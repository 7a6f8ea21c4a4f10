-- ===== src/Host.antt =====
-- What the operating system answers, and extended_attributes.cpp over it: the calls getxattr,
-- setxattr and stat, and fs::status. The answers of the kernel are parameters; they may depend on the calls of
-- setxattr that the program has made.
use storm_tape.Prelude.{ℕ, Bool, true, false, Option, none, some, List, Text, eqb, if◌then◌else◌}
use storm_tape.Model.{PhysicalPath, FileType}
use storm_tape.Path.{text}

pub data SysCall (A : Type 0) : Type 0 where
  ret : A → SysCall A
  errno : ℕ → SysCall A

pub record FileStatus : Type 0 where
  pub type : FileType
  -- whether fs::status has set its error code
  pub error : Bool

abbrev pub SetCalls : Type 0
SetCalls = List (PhysicalPath × Text)

-- st_size and st_blocks of struct stat
pub record Stat : Type 0 where
  pub size : ℕ
  pub blocks : ℕ

pub record Kernel : Type 0 where
  -- the size of an attribute's value
  pub getxattr : SetCalls → PhysicalPath → Text → SysCall ℕ
  pub status : PhysicalPath → FileStatus
  pub stat : PhysicalPath → SysCall Stat

abbrev pub enodata : ℕ
enodata = 61

abbrev pub has_of : SysCall ℕ → Option ℕ × Bool
has_of (ret n) = (none, true)
has_of (errno e) = if eqb e enodata then (none, false) else (some e, false)

module _ (K : Kernel) where
  -- has_xattr: the error code, and the result
  unfoldable pub has_xattr : SetCalls → PhysicalPath → Text → Option ℕ × Bool
  has_xattr calls path name = has_of (K.getxattr calls path name)

abbrev pub tsm_rect : Text
tsm_rect = text "user.TSMRecT"
