-- ===== src/Storage/Local.antt =====
-- local_storage.cpp: the Storage that asks the file system. Sizes are below 2^63, as off_t and the
-- product with 512 require, so no arithmetic overflows.
use storm_tape.Prelude.{
  ℕ, ◌*◌, ◌≡◌, refl, Bool, true, false, Option, none, some, eqb, ltb, if◌then◌else◌, arith, ◌∙◌,
}
use storm_tape.Path.{text}
use storm_tape.Model.{PhysicalPath, Locality, FileSizeInfo}
use storm_tape.Host.{
  Kernel, SetCalls, SysCall, ret, errno, Stat, has_xattr, has_of, tsm_rect, enodata,
}
use storm_tape.Prelude.{Text}
use storm_tape.Storage.{Storage, Answer, value, failure, fresh, locality}
use storm_tape.Storage.Caching.{locality_of, locality-eq-locality_of}

abbrev pub migrated : Text
migrated = text "user.storm.migrated"

-- `if (ec == std::error_code{}) return result; else return ec;`
abbrev pub answer_of : Option ℕ × Bool → Answer Bool
answer_of (none, b) = value b
answer_of (some e, b) = failure e

abbrev pub bytes_per_block : ℕ
bytes_per_block = 512

abbrev pub size_info_of : SysCall Stat → Answer FileSizeInfo
size_info_of (errno e) = failure e
size_info_of (ret s) =
    value (record { size = s.size; is_stub = ltb (s.blocks * bytes_per_block) s.size })

-- LocalStorage, after some calls of setxattr.
unfoldable pub local_storage : Kernel → SetCalls → Storage
unfolding has_xattr
local_storage K calls = record {
  is_in_progress = λ path. answer_of (has_xattr K calls path tsm_rect);
  file_size_info = λ path. size_info_of (K.stat path);
  is_on_tape = λ path. answer_of (has_xattr K calls path migrated);
}

-- Whether an attribute is there, as far as the kernel tells.
pub data Attribute : Type 0 where
  present absent unknown : Attribute

abbrev pub attribute : SysCall ℕ → Attribute
attribute (ret n) = present
attribute (errno e) = if eqb e enodata then absent else unknown

-- The locality of a file with data on disk, or of a stub, by its attributes: that of a recall that
-- runs, and that of a copy on tape.
abbrev pub local_locality : Bool → Attribute → Attribute → Locality
local_locality stub recall unknown = Locality.unavailable
local_locality true recall present = Locality.tape
local_locality true recall absent = Locality.lost
local_locality false unknown tape = Locality.unavailable
local_locality false present present = Locality.tape
local_locality false present absent = Locality.lost
local_locality false absent present = Locality.disk_and_tape
local_locality false absent absent = Locality.disk

abbrev pub stat_locality : SysCall Stat → Attribute → Attribute → Locality
stat_locality (errno e) recall tape = Locality.unavailable
stat_locality (ret s) recall tape =
    if eqb s.size 0 then Locality.none else local_locality (ltb (s.blocks * 512) s.size) recall tape

-- The answers that LocalStorage gives, and what they make of the locality.
answers_locality :
    (st : SysCall Stat) (r m : SysCall ℕ)
    → locality_of (size_info_of st) (answer_of (has_of r)) (answer_of (has_of m))
      ≡ stat_locality st (attribute r) (attribute m)
answers_locality (errno e) r m = refl
answers_locality (ret s) (ret n) (ret k) = ground arith
answers_locality (ret s) (ret n) (errno k) = ground arith
answers_locality (ret s) (errno n) (ret k) = ground arith
answers_locality (ret s) (errno n) (errno k) = ground arith

-- With LocalStorage the locality of a file is what stat and its two attributes say: an empty file is
-- NONE; a file whose blocks do not hold its size, or that is being recalled, is on TAPE, or LOST if it
-- has no copy there; any other is on DISK, with or without a copy on tape. An error of stat, or of an
-- attribute that is needed, makes it UNAVAILABLE.
pub locality-local_storage :
    (K : Kernel) (calls : SetCalls) (path : PhysicalPath)
    → locality (local_storage K calls) path fresh
      ≡ stat_locality
          (K.stat path)
          (attribute (K.getxattr calls path tsm_rect))
          (attribute (K.getxattr calls path migrated))
unfolding local_storage has_xattr
locality-local_storage K calls path =
    locality-eq-locality_of (local_storage K calls) path
    ∙ answers_locality (K.stat path) (K.getxattr calls path tsm_rect)
        (K.getxattr calls path migrated)
