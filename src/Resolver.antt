-- ===== src/Resolver.antt =====
-- storage_area_resolver.cpp and the data of configuration.hpp that it reads.
-- `none` stands for an abort (a failed BOOST_ASSERT) and for the end iterator of an empty list of
-- access points, which the code dereferences.
pub mod Prefix
pub mod Longest
pub mod Resolve
use storm_tape.Prelude.{
  ℕ, ◌≡◌, refl, Bool, true, false, not, ◌||◌, Option, none, some, List, [], ◌∷◌, Text, ltb, length,
  if◌then◌else◌,
}
use storm_tape.Model.{LogicalPath, PhysicalPath, StorageArea}
use storm_tape.Path.{
  text, is_absolute, is_empty, components, mismatch, path_eq, lexically_normal, lexically_relative,
  append, dot,
}

-- std::distance(ap.begin(), ap.end()) if every component of `ap` is matched.
unfoldable pub prefix_match : LogicalPath → LogicalPath → Option ℕ
unfolding mismatch components
prefix_match path ap =
    let (_, rest) = mismatch (components path) (components ap) in
    if is_empty rest then some (length (components ap)) else none

-- `<` on std::optional: an empty one comes first.
abbrev pub opt_lt : Option ℕ → Option ℕ → Bool
opt_lt none none = false
opt_lt none (some b) = true
opt_lt (some a) none = false
opt_lt (some a) (some b) = ltb a b

pub record BestMatch : Type 0 where
  pub match_size : ℕ
  pub path : LogicalPath
  pub sa : StorageArea

abbrev pub size_of : Option BestMatch → Option ℕ
size_of none = none
size_of (some bm) = some bm.match_size

-- std::max_element after its first element: the first of the largest.
unfoldable pub max_ap : LogicalPath → LogicalPath → List LogicalPath → LogicalPath
max_ap path best [] = best
max_ap path best (ap ∷ aps) =
    max_ap path (if opt_lt (prefix_match path best) (prefix_match path ap) then ap else best) aps

pub as_match : StorageArea → LogicalPath → Option ℕ → Option BestMatch
as_match sa ap none = none
as_match sa ap (some m) = some (record { match_size = m; path = ap; sa = sa })

-- The best access point of one storage area.
pub best_of_aps : LogicalPath → StorageArea → List LogicalPath → Option (Option BestMatch)
best_of_aps path sa [] = none
best_of_aps path sa (ap ∷ aps) =
    let best = max_ap path ap aps in some (as_match sa best (prefix_match path best))

-- std::max
abbrev pub max_match : Option BestMatch → Option BestMatch → Option BestMatch
max_match a b = if opt_lt (size_of a) (size_of b) then b else a

pub reduce_step : Option BestMatch → Option (Option BestMatch) → Option (Option BestMatch)
reduce_step best none = none
reduce_step best (some m) = some (max_match best m)

-- The reduction over the storage areas.
unfoldable pub best_match :
    LogicalPath → Option (Option BestMatch) → List StorageArea → Option (Option BestMatch)
best_match path best [] = best
best_match path none (sa ∷ sas) = none
best_match path (some best) (sa ∷ sas) =
    best_match path (reduce_step best (best_of_aps path sa sa.access_points)) sas

pub physical : LogicalPath → Option (Option BestMatch) → Option PhysicalPath
physical path none = none
physical path (some none) = some []
physical path (some (some bm)) =
    let rel_path = lexically_relative path bm.path in
    if is_empty rel_path
    then none
    else if path_eq rel_path dot
    then some bm.sa.root
    else some (append bm.sa.root rel_path)

-- StorageAreaResolver::operator()
unfoldable pub resolve : List StorageArea → LogicalPath → Option PhysicalPath
unfolding best_match best_of_aps reduce_step max_ap as_match physical
resolve sas path =
    if not (is_absolute path) || not (path_eq path (lexically_normal path))
    then some []
    else if is_empty sas
    then none
    else physical path (best_match path (some none) sas)
