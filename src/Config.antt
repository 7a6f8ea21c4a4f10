-- ===== src/Config.antt =====
-- configuration.cpp: the checks that a configuration passes before the service starts.
-- yaml-cpp and boost are not part of the repository: what they answer about a node of the document is
-- the data of the model (Node), std::toupper of the locale is a parameter, and so is what the file
-- system says of a root.
pub mod Distinct
pub mod Checks
pub mod Load
pub mod Bounds
use storm_tape.Prelude.{
  ℕ, Bool, true, false, not, ◌&&◌, ◌||◌, Option, none, some, List, [], ◌∷◌, ◌++◌, map, Text, leb,
  ltb, eqb, all, if◌then◌else◌, ◌==◌, text_dec,
}
use storm_tape.Model.{LogicalPath, PhysicalPath, StorageArea, Configuration, exists, is_directory}
use storm_tape.Path.{text, is_empty, is_absolute, path_lt, path_eq, lexically_normal}
use storm_tape.Path.Lex.{lex_lt}
use storm_tape.Algorithm.{sort}
use storm_tape.Host.{FileStatus}

pub data ℤ : Type 0 where
  pos negsuc : ℕ → ℤ

-- What yaml-cpp says of a node.
pub record Node : Type 0 where
  pub is_defined : Bool
  pub is_null : Bool
  -- as<std::string>(), which may throw, and as<std::string>("")
  pub text : Option Text
  pub text_or_empty : Text
  -- as<std::vector<std::string>>({})
  pub strings : List Text
  -- the conversions to int and to bool
  pub integer : Option ℤ
  pub boolean : Option Bool

pub record AreaNode : Type 0 where
  pub name : Node
  pub root : Node
  pub access_point : Node

pub record Document : Type 0 where
  -- `none` where the entry converts to false
  pub storage_areas : Option (List AreaNode)
  pub port : Node
  pub log_level : Node
  pub mirror_mode : Node

-- The runtime_errors that are thrown, and the exception of yaml-cpp.
pub data ConfigError : Type 0 where
  name_missing name_null name_empty name_not_text root_missing root_null : ConfigError
  access_point_missing access_point_null no_areas same_name common_access_point : ConfigError
  relative_access_point port_null port_invalid log_level_null log_level_invalid : ConfigError
  mirror_mode_null mirror_mode_invalid no_storage_areas : ConfigError
  root_relative root_not_found root_unavailable root_not_directory root_permissions : ConfigError
  name_invalid : Text → ConfigError

pub data Loaded (A : Type 0) : Type 0 where
  loaded : A → Loaded A
  refused : ConfigError → Loaded A

infixl 10 ◌>>=◌
unfoldable pub ◌>>=◌ : {A B : Type 0} → Loaded A → (A → Loaded B) → Loaded B
loaded a >>= f = f a
refused e >>= f = refused e

-- The guard `if (b) throw e;`
unfoldable pub refuse_if : {A : Type 0} → Bool → ConfigError → Loaded A → Loaded A
refuse_if true e m = refused e
refuse_if false e m = m

between : ℕ → ℕ → ℕ → Bool
between a b c = leb a c && leb c b

abbrev is_letter : ℕ → Bool
is_letter c = between 65 90 c || between 97 122 c

abbrev is_name_char : ℕ → Bool
is_name_char c = is_letter c || between 48 57 c || eqb c 45 || eqb c 95 || eqb c 46

-- ^[a-zA-Z][a-zA-Z0-9-_.]*$
unfoldable pub is_name : Text → Bool
unfolding between
is_name [] = false
is_name (c ∷ cs) = is_letter c && all is_name_char cs

check_name : Option Text → Loaded Text
unfolding is_name
check_name none = refused name_not_text
check_name (some name) =
    if is_empty name
    then refused name_empty
    else if is_name name
    then loaded name
    else refused (name_invalid name)

-- load_storage_area_name
unfoldable pub load_storage_area_name : Node → Loaded Text
unfolding check_name refuse_if
load_storage_area_name name =
    refuse_if (not name.is_defined) name_missing
      (refuse_if name.is_null name_null (check_name name.text))

-- load_storage_area_root
unfoldable pub load_storage_area_root : Node → Loaded PhysicalPath
unfolding refuse_if
load_storage_area_root root =
    refuse_if (not root.is_defined) root_missing
      (refuse_if root.is_null root_null (loaded (lexically_normal root.text_or_empty)))

-- load_storage_area_access_points: one text is made normal, a sequence is not.
unfoldable pub load_storage_area_access_points : Node → Loaded (List LogicalPath)
unfolding refuse_if
load_storage_area_access_points node = refuse_if (not node.is_defined) access_point_missing (
    refuse_if node.is_null access_point_null (
      loaded (
        if not (is_empty node.text_or_empty)
        then lexically_normal node.text_or_empty ∷ []
        else node.strings)))

-- load_storage_area
unfoldable pub load_storage_area : AreaNode → Loaded StorageArea
unfolding ◌>>=◌
load_storage_area sa = do
  name ← load_storage_area_name sa.name
  root ← load_storage_area_root sa.root
  ap ← load_storage_area_access_points sa.access_point
  loaded (record { name = name; root = root; access_points = ap })

unfoldable pub load_each : List AreaNode → Loaded (List StorageArea)
unfolding ◌>>=◌
load_each [] = loaded []
load_each (sa ∷ sas) = do a ← load_storage_area sa; rest ← load_each sas; loaded (a ∷ rest)

-- std::adjacent_find finds one.
unfoldable pub has_adjacent : {A : Type 0} → (A → A → Bool) → List A → Bool
has_adjacent same [] = false
has_adjacent same (x ∷ []) = false
has_adjacent same (x ∷ y ∷ ys) = same x y || has_adjacent same (y ∷ ys)

-- std::find_if finds one.
unfoldable pub has_any : {A : Type 0} → (A → Bool) → List A → Bool
has_any p [] = false
has_any p (x ∷ xs) = p x || has_any p xs

module _ (toupper : ℕ → ℕ) where
  -- algo::ilexicographical_compare on the names
  abbrev pub name_lt : StorageArea → StorageArea → Bool
  name_lt l r = lex_lt ltb (map toupper l.name) (map toupper r.name)

  -- algo::iequals
  abbrev pub same_names : StorageArea → StorageArea → Bool
  same_names l r = map toupper l.name == map toupper r.name

  unfoldable pub points_of : List StorageArea → List LogicalPath
  points_of [] = []
  points_of (sa ∷ sas) = sa.access_points ++ points_of sas

  -- load_storage_areas, once the areas are loaded. The pointers to the areas only serve the messages.
  unfoldable pub check_areas : List StorageArea → Loaded (List StorageArea)
  unfolding refuse_if has_adjacent has_any points_of
  check_areas [] = refused no_areas
  check_areas (a ∷ rest) =
      let result = sort name_lt (a ∷ rest) in
      let access_points = sort path_lt (points_of result) in
      refuse_if (has_adjacent same_names result) same_name (
        refuse_if (has_adjacent path_eq access_points) common_access_point (
          refuse_if (has_any (λ p. not (is_absolute p)) access_points) relative_access_point
            (loaded result)))

  -- load_storage_areas
  unfoldable pub load_storage_areas : List AreaNode → Loaded (List StorageArea)
  unfolding ◌>>=◌ load_each check_areas
  load_storage_areas sas = load_each sas >>= check_areas
