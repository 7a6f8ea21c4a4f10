-- ===== src/Attributes/Handlers.antt =====
-- The has_xattr of Host, which the handlers are modelled over, is that of extended_attributes.cpp, where
-- the kernel answers both alike; and the names that the handlers ask for are valid.
use storm_tape.Prelude.{ℕ, ◌≡◌, refl, true, Text}
use storm_tape.Model.{PhysicalPath}
use storm_tape.Host.{Kernel, SetCalls, SysCall, ret, errno, tsm_rect}
use storm_tape.Host
use storm_tape.Storage.Local.{migrated}
use storm_tape.Attributes.{Calls, XAttrName, returns, valid, has_xattr, has_result}

-- The size that getxattr returns.
abbrev pub sized : SysCall (ℕ × Text) → SysCall ℕ
sized (ret (n, bytes)) = ret n
sized (errno e) = errno e

has_result-has_of : (r : SysCall (ℕ × Text)) → has_result r ≡ Host.has_of (sized r)
has_result-has_of (ret (n, bytes)) = refl
has_result-has_of (errno e) = refl

pub has_xattr-Host :
    {F : Type 0} (C : Calls F) (s : F) (K : Kernel) (calls : SetCalls) (p : PhysicalPath)
    (n : XAttrName)
    → K.getxattr calls p n.name ≡ sized (C.getxattr p n.name 0 s)
    → valid n ≡ true
    → (has_xattr C p n s).0 ≡ returns (Host.has_xattr K calls p n.name)
unfolding has_xattr Host.has_xattr
has_xattr-Host C s K calls p n e v = rw (v, e, has_result-has_of (C.getxattr p n.name 0 s))

tsm_rect-valid : valid (record { name = tsm_rect }) ≡ true
unfolding valid
tsm_rect-valid = refl

migrated-valid : valid (record { name = migrated }) ≡ true
unfolding valid
migrated-valid = refl
