-- ===== src/Algorithm.antt =====
-- The algorithms of the C++ standard library that the program calls, on lists.
-- std::sort and std::partition leave the order of equivalent elements open: here it is kept.
pub mod Sorting
pub mod Difference
pub mod Matching
pub mod Unique
use storm_tape.Prelude.{
  ℕ, Bool, true, false, not, Option, none, some, List, [], ◌∷◌, ◌++◌, if◌then◌else◌, keep,
}

module _ {A : Type 0} (lt : A → A → Bool) where
  insert : A → List A → List A
  insert x [] = x ∷ []
  insert x (y ∷ ys) = let rest = insert x ys in if lt y x then y ∷ rest else x ∷ y ∷ ys

  -- std::sort
  unfoldable pub sort : List A → List A
  unfolding insert
  sort [] = []
  sort (x ∷ xs) = insert x (sort xs)

  -- std::set_difference, the loop as it is specified
  unfoldable pub set_difference : List A → List A → List A
  set_difference [] ys = []
  set_difference (x ∷ xs) [] = x ∷ xs
  set_difference (x ∷ xs) (y ∷ ys) = elim (lt x y) [
    | true ↦ x ∷ set_difference xs (y ∷ ys)
    | false ↦ elim (lt y x) [ true ↦ set_difference (x ∷ xs) ys | false ↦ set_difference xs ys ]
  ]

  -- std::min_element after its first element: the first of the least.
  unfoldable pub min_element : A → List A → A
  min_element best [] = best
  min_element best (x ∷ xs) = min_element (if lt x best then x else best) xs

  -- std::max_element after its first element: the first of the greatest.
  unfoldable pub max_element : A → List A → A
  max_element best [] = best
  max_element best (x ∷ xs) = max_element (if lt best x then x else best) xs

module _ {A : Type 0} (same : A → A → Bool) where
  drop_same : A → List A → List A
  drop_same x [] = []
  drop_same x (y ∷ ys) = elim (same x y) [ true ↦ drop_same x ys | false ↦ y ∷ drop_same y ys ]

  -- std::unique and the erase that follows it: each run of equal elements keeps its first.
  unfoldable pub unique : List A → List A
  unfolding drop_same
  unique [] = []
  unique (x ∷ xs) = x ∷ drop_same x xs

module _ {A : Type 0} (p : A → Bool) where
  -- std::partition: the elements that pass, and the others.
  abbrev pub partition : List A → List A × List A
  partition xs = (keep p xs, keep (λ x. not (p x)) xs)

  -- std::partition_point: the part of the list from the first element that fails.
  unfoldable pub from_partition_point : List A → List A
  from_partition_point [] = []
  from_partition_point (x ∷ xs) = if p x then from_partition_point xs else x ∷ xs
