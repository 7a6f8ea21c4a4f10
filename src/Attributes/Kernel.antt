-- ===== src/Attributes/Kernel.antt =====
-- What the manual pages of getxattr, setxattr and removexattr say, for a path that can be read.
use storm_tape.Prelude.{ℕ, ◌≤◌, ◌<◌, ◌≡◌, Bool, Option, none, some, [], Text, length}
use storm_tape.Model.{PhysicalPath}
use storm_tape.Host.{ret, errno, enodata}
use storm_tape.Attributes.{Calls, eexist, erange}

pub record Documented {F : Type 0} (C : Calls F) : Type 0 where
  -- the value of an attribute, if there is one
  pub attribute : F → PhysicalPath → Text → Option Text
  -- A buffer of size 0 asks for the size.
  pub size :
      (s : F) (p : PhysicalPath) (n v : Text)
      → attribute s p n ≡ some v
      → C.getxattr p n 0 s ≡ ret (length v, [])
  pub fits :
      (s : F) (p : PhysicalPath) (n v : Text) (k : ℕ)
      → attribute s p n ≡ some v
      → 0 < k
      → length v ≤ k
      → C.getxattr p n k s ≡ ret (length v, v)
  pub short :
      (s : F) (p : PhysicalPath) (n v : Text) (k : ℕ)
      → attribute s p n ≡ some v
      → 0 < k
      → k < length v
      → C.getxattr p n k s ≡ errno erange
  pub missing :
      (s : F) (p : PhysicalPath) (n : Text) (k : ℕ)
      → attribute s p n ≡ none
      → C.getxattr p n k s ≡ errno enodata
  pub sets :
      (s s' : F) (p : PhysicalPath) (n v : Text) (create : Bool)
      → C.setxattr p n v create s ≡ (ret tt, s')
      → attribute s' p n ≡ some v
  pub exists :
      (s s' : F) (p : PhysicalPath) (n v : Text) (create : Bool)
      → C.setxattr p n v create s ≡ (errno eexist, s')
      → (u : Text) × (attribute s' p n ≡ some u)
  pub removes :
      (s s' : F) (p : PhysicalPath) (n : Text)
      → C.removexattr p n s ≡ (ret tt, s')
      → attribute s' p n ≡ none

-- Other programs leave the attribute alone.
abbrev pub IsAlone : {F : Type 0} (C : Calls F) → Documented C → PhysicalPath → Text → Type 0
IsAlone {F} C D p n = (s : F) → D.attribute (C.others s) p n ≡ D.attribute s p n
