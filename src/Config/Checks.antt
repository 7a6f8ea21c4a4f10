-- ===== src/Config/Checks.antt =====
-- What a configuration that is accepted satisfies, and what the resolver needs of it.
use mathlib.Core.List.{Perm}
use storm_tape.Prelude.{
  ℕ, ◌≡◌, ◌≢◌, refl, sym, subst, inl, Bool, true, false, not, List, [], ◌∷◌, map, arith, All, In,
  All-In, All-of_In, All-split, Text, ==_iff,
}
use storm_tape.Model.{StorageArea}
use storm_tape.Path.{is_absolute, path_lt, path_eq}
use storm_tape.Path.Lex.{lex-IsStrictOrder, ltb-IsStrictOrder}
use storm_tape.Algorithm.{sort}
use storm_tape.Algorithm.Sorting.{
  IsWeakOrder, strict-IsWeakOrder, sort-perm, sort-IsSorted, In-sort, All-sort,
}
use storm_tape.Algorithm.Difference.{IsIncreasing}
use storm_tape.Resolver.Resolve.{IsValidAreas}
use storm_tape.Resolver.Longest.{HasPoints}
use storm_tape.Service.Cancel.{path_lt-IsWeakOrder}
use storm_tape.Config.{
  Loaded, loaded, ConfigError, name_lt, same_names, points_of, check_areas, refuse_if,
}
use storm_tape.Config.Distinct.{IsIncreasing-of_adjacent, has_any-false}

-- A guard that lets pass has been false.
refuse_if-loaded :
    {A : Type 0} (b : Bool) (e : ConfigError) (m : Loaded A) (a : A)
    → refuse_if b e m ≡ loaded a
    → (b ≡ false) × (m ≡ loaded a)
unfolding refuse_if
refuse_if-loaded true e m a h = absurd (ground arith)
refuse_if-loaded false e m a h = (refl, h)

loaded-inj : {A : Type 0} (a b : A) → loaded a ≡ loaded b → a ≡ b
loaded-inj a b h = cc

path_eq-equivalent : (p q : Text) → path_lt p q ≡ false → path_lt q p ≡ false → path_eq p q ≡ true
unfolding path_eq
path_eq-equivalent p q h k = rw (h, k)

absolute_of : (p : Text) → not (is_absolute p) ≡ false → is_absolute p ≡ true
absolute_of p h = ground arith

module _ (toupper : ℕ → ℕ) where
  pub name_lt-IsWeakOrder : IsWeakOrder (name_lt toupper)
  name_lt-IsWeakOrder =
      strict-IsWeakOrder (lex-IsStrictOrder ltb-IsStrictOrder) (λ sa. map toupper sa.name)

  same_names-equivalent :
      (l r : StorageArea)
      → name_lt toupper l r ≡ false
      → name_lt toupper r l ≡ false
      → same_names toupper l r ≡ true
  same_names-equivalent l r h k =
      (==_iff (map toupper l.name) (map toupper r.name)).1
        ((lex-IsStrictOrder ltb-IsStrictOrder).total (map toupper l.name) (map toupper r.name) h k)

  -- An accepted list of storage areas is the loaded one, sorted by name. It is not empty; each name is
  -- less than those after it, so no two are equal up to case; all access points are absolute, and no
  -- two are equal.
  pub record IsAccepted (areas result : List StorageArea) : Type 0 where
    pub sorting : result ≡ sort (name_lt toupper) areas
    pub perm : Perm result areas
    pub some_area : result ≢ []
    pub names : IsIncreasing (name_lt toupper) result
    pub points : IsIncreasing path_lt (sort path_lt (points_of toupper result))
    pub absolute : All (λ p. is_absolute p ≡ true) (points_of toupper result)

  pub check_areas-IsAccepted :
      (areas result : List StorageArea)
      → check_areas toupper areas ≡ loaded result
      → IsAccepted areas result
  unfolding check_areas
  check_areas-IsAccepted [] result h = absurd (ground arith)
  check_areas-IsAccepted (a ∷ rest) result h =
      let sorted = sort (name_lt toupper) (a ∷ rest) in
      let points = sort path_lt (points_of toupper sorted) in
      let (names, h1) = refuse_if-loaded _ _ _ result h in
      let (common, h2) = refuse_if-loaded _ _ _ result h1 in
      let (relative, h3) = refuse_if-loaded _ _ _ result h2 in
      subst (IsAccepted (a ∷ rest)) (loaded-inj sorted result h3) (record {
        sorting = refl;
        perm = sort-perm (name_lt toupper) (a ∷ rest);
        some_area = λ e. subst (In a) e (In-sort (name_lt toupper) a (a ∷ rest) (inl refl));
        names =
            IsIncreasing-of_adjacent name_lt-IsWeakOrder (same_names toupper) same_names-equivalent
              sorted (sort-IsSorted name_lt-IsWeakOrder (a ∷ rest)) names;
        points =
            IsIncreasing-of_adjacent path_lt-IsWeakOrder path_eq path_eq-equivalent points
              (sort-IsSorted path_lt-IsWeakOrder (points_of toupper sorted)) common;
        absolute =
            All-of_In (λ p. is_absolute p ≡ true) (points_of toupper sorted)
              λ p m. absolute_of p (
                All-In (λ p. not (is_absolute p) ≡ false) p points (has_any-false _ points relative)
                  (In-sort path_lt p (points_of toupper sorted) m));
      })

  absolute_each :
      (sas : List StorageArea)
      → All (λ p. is_absolute p ≡ true) (points_of toupper sas)
      → All (λ sa. All (λ q. is_absolute q ≡ true) sa.access_points) sas
  unfolding points_of
  absolute_each [] h = tt
  absolute_each (sa ∷ sas) h =
      let (here, there) =
        All-split (λ p. is_absolute p ≡ true) sa.access_points (points_of toupper sas) h in
      (here, absolute_each sas there)

  -- If every storage area that is loaded has an access point, then what is accepted is as the resolver
  -- needs it.
  pub check_areas-IsValidAreas :
      (areas result : List StorageArea)
      → check_areas toupper areas ≡ loaded result
      → All HasPoints areas
      → IsValidAreas result
  check_areas-IsValidAreas areas result h k =
      let accepted = check_areas-IsAccepted areas result h in
      record {
        some_area = accepted.some_area;
        has_points =
            subst (All HasPoints) (sym accepted.sorting)
              (All-sort HasPoints (name_lt toupper) areas k);
        absolute = absolute_each result accepted.absolute;
      }
