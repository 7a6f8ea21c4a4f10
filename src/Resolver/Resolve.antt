-- ===== src/Resolver/Resolve.antt =====
-- StorageAreaResolver::operator() against its description: the longest access point that is a prefix
-- of the path decides, and the rest of the path is appended to the root of its storage area.
use storm_tape.Prelude.{
  ℕ, ◌≤◌, ◌≡◌, ◌≢◌, refl, sym, ap, ◌∙◌, subst, ◌⊎◌, inl, inr, true, false, ◌||◌, Option, none, some,
  List, [], ◌∷◌, ◌++◌, arith, Text, length, All, In, All-In, if◌then◌else◌, Bool, ◌&&◌, Bool-cases,
}
use storm_tape.Path.{
  components, is_absolute, is_empty, path_eq, lexically_normal, lexically_relative, append, join,
  dot, relative_to, mismatch, first_is_empty,
}
use storm_tape.Path.Order.{path_lt_irrefl}
use storm_tape.Model.{StorageArea}
use storm_tape.Resolver.{BestMatch, prefix_match, opt_lt, size_of, physical, resolve}
use storm_tape.Resolver.Prefix.{prefix_match-some, prefix_match_prefix, mismatch-append}
use storm_tape.Resolver.Longest.{best_match_lem, HasPoints, CoversAll, FoundOpt}

-- `rest`, placed under a root.
abbrev pub place : Text → List Text → Text
place root rest =
    if first_is_empty rest || path_eq (join rest) dot then root else append root (join rest)

-- An access point that is a prefix of the path, and no longer one is.
pub record IsLongest (sas : List StorageArea) (path : Text) (sa : StorageArea) (q : Text)
    (rest : List Text) : Type 0 where
  pub area : In sa sas
  pub point : In q sa.access_points
  pub splits : components path ≡ components q ++ rest
  pub longest :
      (other : StorageArea) (q' : Text) (rest' : List Text)
      → In other sas
      → In q' other.access_points
      → components path ≡ components q' ++ rest'
      → length (components q') ≤ length (components q)

pub record IsValidAreas (sas : List StorageArea) : Type 0 where
  pub some_area : sas ≢ []
  pub has_points : All HasPoints sas
  pub absolute : All (λ sa. All (λ q. is_absolute q ≡ true) sa.access_points) sas

lexically_relative_prefix :
    (path q : Text) (rest : List Text)
    → is_absolute path ≡ true
    → is_absolute q ≡ true
    → components path ≡ components q ++ rest
    → lexically_relative path q ≡ (if first_is_empty rest then dot else join rest)
unfolding lexically_relative
lexically_relative_prefix path q rest a b e =
    subst
      (λ c.
        relative_to (is_absolute path) (is_absolute q) c
        ≡ (if first_is_empty rest then dot else join rest))
      (sym (ap (λ c. mismatch c (components q)) e ∙ mismatch-append (components q) rest))
      (rw (a, b) (go rest))
  where
    go :
        (r : List Text) → relative_to true true (r, []) ≡ (if first_is_empty r then dot else join r)
    go [] = refl
    go (n ∷ ns) = refl

pub path_eq_refl : (p : Text) → path_eq p p ≡ true
unfolding path_eq
path_eq_refl p = rw (path_lt_irrefl p)

physical_rel :
    (root : Text) (rest : List Text)
    → (let rel = (if first_is_empty rest then dot else join rest) in
        if is_empty rel
        then none
        else if path_eq rel dot
        then some root
        else some (append root rel))
      ≡ some (place root rest)
unfolding join
physical_rel root [] = rw path_eq_refl
physical_rel root ([] ∷ ns) = rw path_eq_refl
physical_rel root ((c ∷ n) ∷ []) = ground arith
physical_rel root ((c ∷ n) ∷ m ∷ ns) = ground arith

physical_match :
    (path : Text) (bm : BestMatch) (rest : List Text)
    → is_absolute path ≡ true
    → is_absolute bm.path ≡ true
    → components path ≡ components bm.path ++ rest
    → physical path (some (some bm)) ≡ some (place bm.sa.root rest)
unfolding physical
physical_match path bm rest a b e =
    rw (lexically_relative_prefix path bm.path rest a b e) (physical_rel bm.sa.root rest)

-- What the resolver returns for an absolute and normal path.
abbrev pub Resolved : List StorageArea → Text → Option Text → Type 0
Resolved sas path r =
    ((r ≡ some [])
      × ((sa : StorageArea) (q : Text)
          → In sa sas
          → In q sa.access_points
          → prefix_match path q ≡ none))
    ⊎ ((sa : StorageArea) × (q : Text) × (rest : List Text) × IsLongest sas path sa q rest
        × (r ≡ some (place sa.root rest)))

CoversAll-at :
    (path : Text) (o : Option ℕ) (sas : List StorageArea)
    → CoversAll path o sas
    → (sa : StorageArea) (q : Text) → In sa sas
    → In q sa.access_points
    → opt_lt o (prefix_match path q) ≡ false
CoversAll-at path o sas c sa q m k =
    All-In (λ q. opt_lt o (prefix_match path q) ≡ false) q sa.access_points
      (All-In (λ sa. All (λ q. opt_lt o (prefix_match path q) ≡ false) sa.access_points) sa sas c m)
      k

opt_lt_none : (o : Option ℕ) → opt_lt none o ≡ false → o ≡ none
opt_lt_none none h = refl
opt_lt_none (some n) h = cc

Resolved-match :
    (sas : List StorageArea) (path : Text) (m : Option BestMatch)
    → is_absolute path ≡ true
    → IsValidAreas sas
    → FoundOpt path sas m
    → CoversAll path (size_of m) sas
    → Resolved sas path (physical path (some m))
unfolding physical
Resolved-match sas path none a v f c =
    inl
      (refl, λ sa q m k. opt_lt_none (prefix_match path q) (CoversAll-at path none sas c sa q m k))
Resolved-match sas path (some bm) a v f c =
    let (size, splits) = prefix_match-some path bm.path bm.match_size f.2 in
    let absolute =
      All-In (λ q. is_absolute q ≡ true) bm.path bm.sa.access_points
        (All-In (λ sa. All (λ q. is_absolute q ≡ true) sa.access_points) bm.sa sas v.absolute f.0)
        f.1 in
    let rest = (mismatch (components path) (components bm.path)).0 in
    inr (
      bm.sa,
      bm.path,
      rest,
      record {
        area = f.0;
        point = f.1;
        splits = splits;
        longest = λ other q' rest' m k e. ground (
          arith,
          CoversAll-at path (some bm.match_size) sas c other q' m k,
          prefix_match_prefix path q' rest' e,
        );
      },
      physical_match path bm rest a absolute splits,
    )

-- For an absolute and normal path the resolver returns a path for any valid storage areas: the empty
-- one if no access point is a prefix of it, and otherwise the root of a storage area that has a
-- longest such access point, extended by the rest of the path.
pub resolve-IsLongest :
    (sas : List StorageArea) (path : Text)
    → IsValidAreas sas
    → is_absolute path ≡ true
    → path_eq path (lexically_normal path) ≡ true
    → Resolved sas path (resolve sas path)
unfolding resolve
resolve-IsLongest [] path v a n = absurd (v.some_area refl)
resolve-IsLongest (sa ∷ sas) path v a n =
    let (m, e, f, c, _) =
      best_match_lem path (sa ∷ sas) none (sa ∷ sas) (λ x k. k) v.has_points tt in
    rw (a, n, e) (Resolved-match (sa ∷ sas) path m a v f c)

-- The paths that the resolver looks at: absolute, and their own normal form.
abbrev pub accepted : Text → Bool
accepted path = is_absolute path && path_eq path (lexically_normal path)

-- What the resolver returns for any path: the empty one for what it does not look at.
abbrev pub Answered : List StorageArea → Text → Option Text → Type 0
Answered sas path r =
    (accepted path ≡ true) × Resolved sas path r ⊎ (accepted path ≡ false) × (r ≡ some [])

pub resolve-Answered :
    (sas : List StorageArea) (path : Text) → IsValidAreas sas → Answered sas path (resolve sas path)
resolve-Answered sas path v = elim (Bool-cases (is_absolute path)) [
  | inr relative ↦ inr (rw relative, unfold resolve in rw relative)
  | inl absolute ↦ elim (Bool-cases (path_eq path (lexically_normal path))) [
    | inl normal ↦ inl (rw (absolute, normal), resolve-IsLongest sas path v absolute normal)
    | inr other ↦ inr (rw (absolute, other), unfold resolve in rw (absolute, other))
  ]
]
