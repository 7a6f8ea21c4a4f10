-- ===== src/Attributes.antt =====
-- extended_attributes.cpp and extended_attributes.hpp in full. The system calls are parameters over a
-- state of the file system, which other programs may change between two calls. A call is given the
-- texts whose c_str() the source passes. The asserts are those of a build without NDEBUG.
pub mod Kernel
pub mod Reading
pub mod RoundTrip
pub mod Listing
pub mod Handlers
use storm_tape.Prelude.{
  ℕ, zero, suc, Bool, true, false, ◌||◌, ◌&&◌, not, Option, none, some, List, [], ◌∷◌, Text, eqb,
  if◌then◌else◌, length, keep,
}
use storm_tape.Path.{text}
use storm_tape.Model.{PhysicalPath}
use storm_tape.Host.{SysCall, ret, errno, enodata}

pub record XAttrName : Type 0 where
  pub name : Text

pub record XAttrValue : Type 0 where
  pub value : Text

pub record XAttr : Type 0 where
  pub name : XAttrName
  pub value : XAttrValue

abbrev pub eexist : ℕ
eexist = 17

abbrev pub erange : ℕ
erange = 34

-- The rest of a text after a prefix.
unfoldable pub after_prefix : Text → Text → Option Text
after_prefix [] t = some t
after_prefix (c ∷ cs) [] = none
after_prefix (c ∷ cs) (d ∷ ds) = if eqb c d then after_prefix cs ds else none

-- `.+`, where `.` is any character but the ends of a line.
unfoldable pub some_characters : Text → Bool
some_characters [] = false
some_characters (c ∷ []) = not (eqb c 10 || eqb c 13)
some_characters (c ∷ d ∷ ds) = not (eqb c 10 || eqb c 13) && some_characters (d ∷ ds)

follows : Option Text → Bool
unfolding some_characters
follows none = false
follows (some rest) = some_characters rest

-- ^(user|system|security|trusted)\..+
unfoldable pub valid : XAttrName → Bool
unfolding after_prefix follows
valid n =
    follows (after_prefix (text "user.") n.name)
    || (follows (after_prefix (text "system.") n.name)
        || (follows (after_prefix (text "security.") n.name)
            || follows (after_prefix (text "trusted.") n.name)))

-- The system calls, and what other programs do between two calls of this one. The flag of setxattr is
-- XATTR_CREATE. getxattr and listxattr are given the size of the buffer, and return their result with
-- the bytes that they write to its front.
pub record Calls (F : Type 0) : Type 0 where
  pub setxattr : PhysicalPath → Text → Text → Bool → F → SysCall Unit × F
  pub getxattr : PhysicalPath → Text → ℕ → F → SysCall (ℕ × Text)
  pub listxattr : PhysicalPath → ℕ → F → SysCall (ℕ × Text)
  pub removexattr : PhysicalPath → Text → F → SysCall Unit × F
  pub others : F → F

-- How a function ends: a call of std::abort is that of a failed assertion.
pub data Ending (A : Type 0) : Type 0 where
  returns : A → Ending A
  throws : ℕ → Ending A
  length_error : Ending A
  aborts : Ending A

-- An error code, `none` when it is clear, with a result.
abbrev pub Coded : Type 0 → Type 0
Coded A = Ending (Option ℕ × A)

-- `if (ec) throw std::system_error(ec)`
abbrev pub or_throw : {A : Type 0} → Coded A → Ending A
or_throw (returns (none, a)) = returns a
or_throw (returns (some e, a)) = throws e
or_throw (throws e) = throws e
or_throw length_error = length_error
or_throw aborts = aborts

abbrev pub code_of : SysCall Unit → Option ℕ
code_of (ret _) = none
code_of (errno e) = some e

abbrev pub create_code : SysCall Unit → Option ℕ
create_code (ret _) = none
create_code (errno e) = if eqb e eexist then none else some e

abbrev pub has_result : SysCall (ℕ × Text) → Option ℕ × Bool
has_result (ret _) = (none, true)
has_result (errno e) = if eqb e enodata then (none, false) else (some e, false)

-- std::string::resize
abbrev pub resize : ℕ → Text → Text
resize zero t = []
resize (suc n) [] = 0 ∷ resize n []
resize (suc n) (c ∷ t) = c ∷ resize n t

-- A buffer after a call has written to its front.
abbrev pub overwrite : Text → Text → Text
overwrite [] buffer = buffer
overwrite (b ∷ bs) [] = []
overwrite (b ∷ bs) (c ∷ buffer) = b ∷ overwrite bs buffer

-- The name is asserted to be valid.
abbrev pub asserted : {A F : Type 0} → XAttrName → Coded A × F → F → Coded A × F
asserted n r s = if valid n then r else (aborts, s)

abbrev pub is_empty : XAttrName → Bool
is_empty n = eqb (length n.name) 0

unfoldable pub names_of : List Text → List XAttrName
names_of [] = []
names_of (t ∷ ts) = record { name = t } ∷ names_of ts

module _ {F : Type 0} (C : Calls F) where
  unfoldable pub create_xattr : PhysicalPath → XAttrName → F → Coded Unit × F
  create_xattr path n s =
      let (res, s') = C.setxattr path n.name [] true s in
      asserted n (returns (create_code res, tt), s') s

  unfoldable pub set_xattr : PhysicalPath → XAttrName → XAttrValue → F → Coded Unit × F
  set_xattr path n v s =
      let (res, s') = C.setxattr path n.name v.value false s in
      asserted n (returns (code_of res, tt), s') s

  unfoldable pub set_xattr_or_throw : PhysicalPath → XAttrName → XAttrValue → F → Ending Unit × F
  unfolding set_xattr
  set_xattr_or_throw path n v s = let (r, s') = set_xattr path n v s in (or_throw r, s')

  -- The last call of getxattr: the value is not resized to its result.
  read_last : SysCall (ℕ × Text) → Text → F → Coded XAttrValue × F
  read_last (ret (m, bytes)) buffer s =
      (returns (none, record { value = overwrite bytes buffer }), s)
  read_last (errno e) buffer s = (returns (some e, record { value = [] }), s)

  -- Once the size is queried: a size of -1 is too long for a text.
  read_sized : PhysicalPath → XAttrName → ℕ → SysCall (ℕ × Text) → F → Coded XAttrValue × F
  unfolding read_last
  read_sized path n sso (ret (size, bytes)) s =
      let buffer = resize size (resize sso []) in
      let s' = C.others s in read_last (C.getxattr path n.name size s') buffer s'
  read_sized path n sso (errno e) s = (length_error, s)

  read_first : PhysicalPath → XAttrName → ℕ → SysCall (ℕ × Text) → F → Coded XAttrValue × F
  unfolding read_sized
  read_first path n sso (ret (res, bytes)) s =
      (returns (none, record { value = resize res (overwrite bytes (resize sso [])) }), s)
  read_first path n sso (errno e) s =
      let s' = C.others s in
      if eqb e erange
      then read_sized path n sso (C.getxattr path n.name 0 s') s'
      else (returns (some e, record { value = [] }), s)

  -- `sso` is the capacity of an empty std::string.
  unfoldable pub get_xattr : ℕ → PhysicalPath → XAttrName → F → Coded XAttrValue × F
  unfolding read_first
  get_xattr sso path n s = asserted n (read_first path n sso (C.getxattr path n.name sso s) s) s

  unfoldable pub get_xattr_or_throw : ℕ → PhysicalPath → XAttrName → F → Ending XAttrValue × F
  unfolding get_xattr
  get_xattr_or_throw sso path n s = let (r, s') = get_xattr sso path n s in (or_throw r, s')

  unfoldable pub has_xattr : PhysicalPath → XAttrName → F → Coded Bool × F
  has_xattr path n s = asserted n (returns (has_result (C.getxattr path n.name 0 s)), s) s

  unfoldable pub has_xattr_or_throw : PhysicalPath → XAttrName → F → Ending Bool × F
  unfolding has_xattr
  has_xattr_or_throw path n s = let (r, s') = has_xattr path n s in (or_throw r, s')

  unfoldable pub remove_xattr : PhysicalPath → XAttrName → F → Coded Unit × F
  remove_xattr path n s =
      let (res, s') = C.removexattr path n.name s in asserted n (returns (code_of res, tt), s') s

  unfoldable pub remove_xattr_or_throw : PhysicalPath → XAttrName → F → Ending Unit × F
  unfolding remove_xattr
  remove_xattr_or_throw path n s = let (r, s') = remove_xattr path n s in (or_throw r, s')

-- `split` is boost::split, with token_compress_on, at the characters that are zero.
module _ {F : Type 0} (C : Calls F) (split : Text → List Text) where
  pub list_read : SysCall (ℕ × Text) → ℕ → F → Coded (List XAttrName) × F
  list_read (ret (res, bytes)) size s =
      let list = overwrite bytes (resize size []) in
      (returns (none, keep (λ n. not (is_empty n)) (names_of (split list))), s)
  list_read (errno e) size s = (returns (some e, []), s)

  list_sized : PhysicalPath → SysCall (ℕ × Text) → F → Coded (List XAttrName) × F
  unfolding list_read
  list_sized path (ret (size, bytes)) s =
      let s' = C.others s in list_read (C.listxattr path size s') size s'
  list_sized path (errno e) s = (returns (some e, []), s)

  unfoldable pub list_xattr_names : PhysicalPath → F → Coded (List XAttrName) × F
  unfolding list_sized
  list_xattr_names path s = list_sized path (C.listxattr path 0 s) s
