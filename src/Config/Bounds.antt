-- ===== src/Config/Bounds.antt =====
-- What a configuration that is loaded satisfies: its numbers are in range, and its roots are
-- directories.
use storm_tape.Prelude.{
  ℕ, ◌≤◌, ◌≡◌, refl, ap, subst, ◌∙◌, Bool, true, false, not, ◌&&◌, Option, none, some, List, [],
  ◌∷◌, arith, All, leb, if◌then◌else◌,
}
use storm_tape.Model.{PhysicalPath, StorageArea, Configuration, is_directory}
use storm_tape.Path.{is_absolute}
use storm_tape.Host.{FileStatus}
use storm_tape.Config.{
  Loaded, loaded, refused, ConfigError, ℤ, pos, negsuc, Node, Document, ◌>>=◌, refuse_if,
  load_storage_areas,
}
use storm_tape.Config.Load.{
  Probe, in_range, or_refuse, or_default, load_port, load_log_level, load_mirror_mode, need_areas,
  load, check_root, check_sa_roots, load_configuration,
}

module _ {A B : Type 0} where
  bind-loaded :
      (m : Loaded A) (f : A → Loaded B) (b : B)
      → (m >>= f) ≡ loaded b
      → (a : A) × (m ≡ loaded a) × (f a ≡ loaded b)
  unfolding ◌>>=◌
  bind-loaded (loaded a) f b h = (a, refl, h)
  bind-loaded (refused e) f b h = absurd (ground arith)

-- A number that is given is in the range.
abbrev IsIn : ℕ → ℕ → Option ℕ → Type 0
IsIn low high none = Unit
IsIn low high (some n) = (low ≤ n) × (n ≤ high)

in_range-IsIn : (low high : ℕ) (z : Option ℤ) → IsIn low high (in_range low high z)
unfolding in_range
in_range-IsIn low high none = tt
in_range-IsIn low high (some (negsuc n)) = tt
in_range-IsIn low high (some (pos n)) = go (leb low n && leb n high) refl
  where
    go : (b : Bool) → (leb low n && leb n high) ≡ b → IsIn low high (if b then some n else none)
    go true e = (ground arith, ground arith)
    go false e = tt

or_refuse-loaded :
    {A : Type 0} (e : ConfigError) (o r : Option A) → or_refuse e o ≡ loaded r → o ≡ r
unfolding or_refuse
or_refuse-loaded e none r h = absurd (ground arith)
or_refuse-loaded e (some a) r h = cc

guarded_number :
    (defined null : Bool) (low high : ℕ) (e e' : ConfigError) (z : Option ℤ) (o : Option ℕ)
    → (if not defined then loaded none else refuse_if null e (or_refuse e' (in_range low high z)))
      ≡ loaded o
    → IsIn low high o
unfolding refuse_if
guarded_number false null low high e e' z none h = tt
guarded_number false null low high e e' z (some n) h = absurd (ground arith)
guarded_number true true low high e e' z o h = absurd (ground arith)
guarded_number true false low high e e' z o h =
    subst (IsIn low high) (or_refuse-loaded e' (in_range low high z) o h) (in_range-IsIn low high z)

load_port-IsIn : (node : Node) (o : Option ℕ) → load_port node ≡ loaded o → IsIn 1 65535 o
unfolding load_port
load_port-IsIn node o h = guarded_number node.is_defined node.is_null 1 65535 _ _ node.integer o h

load_log_level-IsIn : (node : Node) (o : Option ℕ) → load_log_level node ≡ loaded o → IsIn 0 4 o
unfolding load_log_level
load_log_level-IsIn node o h = guarded_number node.is_defined node.is_null 0 4 _ _ node.integer o h

or_default-IsIn :
    (low high d : ℕ) (o : Option ℕ)
    → low ≤ d
    → d ≤ high
    → IsIn low high o
    → (low ≤ or_default d o) × (or_default d o ≤ high)
unfolding or_default
or_default-IsIn low high d none h k i = (h, k)
or_default-IsIn low high d (some n) h k i = i

abbrev AreBounded : Configuration → Type 0
AreBounded c = ((1 ≤ c.port) × (c.port ≤ 65535)) × (c.log_level ≤ 4)

load-AreBounded :
    (toupper : ℕ → ℕ) (node : Document) (c : Configuration)
    → load toupper node ≡ loaded c
    → AreBounded c
unfolding load ◌>>=◌
load-AreBounded toupper node c h =
    let (nodes, _, h1) = bind-loaded (need_areas node.storage_areas) _ c h in
    let (sas, _, h2) = bind-loaded (load_storage_areas toupper nodes) _ c h1 in
    let (port, p, h3) = bind-loaded (load_port node.port) _ c h2 in
    let (level, l, h4) = bind-loaded (load_log_level node.log_level) _ c h3 in
    let (mirror, _, h5) = bind-loaded (load_mirror_mode node.mirror_mode) _ c h4 in
    subst AreBounded (inj _ c h5) (
      or_default-IsIn 1 65535 8080 port (omega arith) (omega arith)
          (load_port-IsIn node.port port p),
      (or_default-IsIn 0 4 1 level (omega arith) (omega arith)
          (load_log_level-IsIn node.log_level level l)).1,
    )
  where
    inj : (a b : Configuration) → loaded a ≡ loaded b → a ≡ b
    inj a b e = cc

module _ (status : PhysicalPath → FileStatus) (probe : PhysicalPath → Probe) where
  -- A root that the service can use.
  abbrev pub IsRoot : StorageArea → Type 0
  IsRoot sa =
      (is_absolute sa.root ≡ true)
      × ((status sa.root).error ≡ false)
      × (is_directory (status sa.root).type ≡ true)

  check_root-IsRoot :
      (mirror : Bool) (sa : StorageArea) → check_root status probe mirror sa ≡ loaded tt → IsRoot sa
  unfolding check_root
  check_root-IsRoot mirror sa h = (ground arith, ground arith, ground arith)

  check_sa_roots-IsRoot :
      (mirror : Bool) (sas : List StorageArea)
      → check_sa_roots status probe mirror sas ≡ loaded tt
      → All IsRoot sas
  unfolding check_sa_roots ◌>>=◌
  check_sa_roots-IsRoot mirror [] h = tt
  check_sa_roots-IsRoot mirror (sa ∷ sas) h =
      let (_, e, rest) = bind-loaded (check_root status probe mirror sa) _ tt h in
      (check_root-IsRoot mirror sa e, check_sa_roots-IsRoot mirror sas rest)

  -- A configuration that is loaded has a port from 1 to 65535 and a log level from 0 to 4, and the root
  -- of each of its storage areas is an absolute path of a directory.
  pub load_configuration-IsUsable :
      (toupper : ℕ → ℕ) (node : Document) (c : Configuration)
      → load_configuration toupper status probe node ≡ loaded c
      → (1 ≤ c.port) × (c.port ≤ 65535) × (c.log_level ≤ 4) × All IsRoot c.storage_areas
  unfolding load_configuration ◌>>=◌
  load_configuration-IsUsable toupper node c h =
      let (d, e, h1) = bind-loaded (load toupper node) _ c h in
      let (_, roots, h2) =
        bind-loaded (check_sa_roots status probe d.mirror_mode d.storage_areas) _ c h1 in
      let same = inj d c h2 in
      let bounds = load-AreBounded toupper node c (e ∙ ap loaded same) in
      (
        bounds.0.0,
        bounds.0.1,
        bounds.1,
        subst (λ x. All IsRoot x.storage_areas) same
            (check_sa_roots-IsRoot d.mirror_mode d.storage_areas roots),
      )
    where
      inj : (a b : Configuration) → loaded a ≡ loaded b → a ≡ b
      inj a b e = cc
