-- ===== src/Config/Load.antt =====
-- configuration.cpp: the checks of the roots, the numbers, and the whole configuration.
use storm_tape.Prelude.{
  ℕ, Bool, true, false, not, ◌&&◌, Option, none, some, List, [], ◌∷◌, leb, if◌then◌else◌,
}
use storm_tape.Model.{PhysicalPath, StorageArea, Configuration, exists, is_directory}
use storm_tape.Path.{text, is_absolute}
use storm_tape.Host.{FileStatus}
use storm_tape.Config.{
  ℤ, pos, Node, AreaNode, Document, ConfigError, port_null, port_invalid, log_level_null,
  log_level_invalid, mirror_mode_null, mirror_mode_invalid, no_storage_areas, root_relative,
  root_not_found, root_unavailable, root_not_directory, root_permissions, Loaded, loaded, refused,
  ◌>>=◌, refuse_if, load_storage_areas,
}

-- What the file system lets the process do with a new file under a directory.
pub record Probe : Type 0 where
  pub creates : Bool
  pub reads : Bool
  -- the error codes of create_xattr and has_xattr
  pub create_error : Option ℕ
  pub has_error : Option ℕ

abbrev no_error : Option ℕ → Bool
no_error none = true
no_error (some e) = false

-- storm_has_all_permissions
unfoldable pub storm_has_all_permissions : Probe → Bool
storm_has_all_permissions p =
    if not p.creates
    then false
    else if not p.reads
    then false
    else if not (no_error p.create_error)
    then false
    else no_error p.has_error

module _ (status : PhysicalPath → FileStatus) (probe : PhysicalPath → Probe) where
  -- check_root
  unfoldable pub check_root : Bool → StorageArea → Loaded Unit
  unfolding refuse_if storm_has_all_permissions
  check_root mirror_mode sa =
      let stat = status sa.root in
      refuse_if (not (is_absolute sa.root)) root_relative (
        refuse_if (not (exists stat.type)) root_not_found (
          refuse_if stat.error root_unavailable (
            refuse_if (not (is_directory stat.type)) root_not_directory (
              refuse_if (not mirror_mode && not (storm_has_all_permissions (probe sa.root)))
                root_permissions (loaded tt)))))

  -- check_sa_roots
  unfoldable pub check_sa_roots : Bool → List StorageArea → Loaded Unit
  unfolding ◌>>=◌ check_root
  check_sa_roots mirror_mode [] = loaded tt
  check_sa_roots mirror_mode (sa ∷ sas) =
      check_root mirror_mode sa >>= λ _. check_sa_roots mirror_mode sas

unfoldable pub in_range : ℕ → ℕ → Option ℤ → Option ℕ
in_range low high (some (pos n)) = if leb low n && leb n high then some n else none
in_range low high o = none

unfoldable pub or_refuse : {A : Type 0} → ConfigError → Option A → Loaded (Option A)
or_refuse e none = refused e
or_refuse e (some a) = loaded (some a)

-- load_port
unfoldable pub load_port : Node → Loaded (Option ℕ)
unfolding refuse_if in_range or_refuse
load_port node =
    if not node.is_defined
    then loaded none
    else refuse_if node.is_null port_null (or_refuse port_invalid (in_range 1 65535 node.integer))

-- load_log_level
unfoldable pub load_log_level : Node → Loaded (Option ℕ)
unfolding refuse_if in_range or_refuse
load_log_level node =
    if not node.is_defined
    then loaded none
    else refuse_if node.is_null log_level_null
        (or_refuse log_level_invalid (in_range 0 4 node.integer))

-- load_mirror_mode
unfoldable pub load_mirror_mode : Node → Loaded (Option Bool)
unfolding refuse_if or_refuse
load_mirror_mode node =
    if not node.is_defined
    then loaded none
    else refuse_if node.is_null mirror_mode_null (or_refuse mirror_mode_invalid node.boolean)

unfoldable pub or_default : {A : Type 0} → A → Option A → A
or_default a none = a
or_default a (some b) = b

unfoldable pub need_areas : Option (List AreaNode) → Loaded (List AreaNode)
need_areas none = refused no_storage_areas
need_areas (some sas) = loaded sas

-- load
unfoldable pub load : (ℕ → ℕ) → Document → Loaded Configuration
unfolding ◌>>=◌ load_storage_areas load_port load_log_level load_mirror_mode or_default need_areas
load toupper node = do
  nodes ← need_areas node.storage_areas
  sas ← load_storage_areas toupper nodes
  port ← load_port node.port
  log_level ← load_log_level node.log_level
  mirror ← load_mirror_mode node.mirror_mode
  loaded (record {
    hostname = text "localhost";
    port = or_default 8080 port;
    storage_areas = sas;
    log_level = or_default 1 log_level;
    mirror_mode = or_default false mirror;
  })

-- load_configuration
unfoldable pub load_configuration :
    (ℕ → ℕ) → (PhysicalPath → FileStatus) → (PhysicalPath → Probe) → Document → Loaded Configuration
unfolding ◌>>=◌ load check_sa_roots
load_configuration toupper status probe node = do
  config ← load toupper node
  check_sa_roots status probe config.mirror_mode config.storage_areas >>= λ _. loaded config
