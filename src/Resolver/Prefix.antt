-- ===== src/Resolver/Prefix.antt =====
-- What `prefix_match` decides: that the components of a path begin with those of another.

use storm_tape.Prelude.{ℕ, ◌≡◌, refl, some, List, [], ◌∷◌, ◌++◌, arith, Text, length}
use storm_tape.Path.{components, mismatch}
use storm_tape.Resolver.{prefix_match}

pub mismatch-append : (ys rest : List Text) → mismatch (ys ++ rest) ys ≡ (rest, [])
unfolding mismatch
mismatch-append [] [] = refl
mismatch-append [] (x ∷ rest) = refl
mismatch-append (y ∷ ys) rest = ground (arith, mismatch-append ys rest)

mismatch_prefix : (xs ys : List Text) → (mismatch xs ys).1 ≡ [] → xs ≡ ys ++ (mismatch xs ys).0
unfolding mismatch
mismatch_prefix [] ys h = ground arith
mismatch_prefix (x ∷ xs) [] h = refl
mismatch_prefix (x ∷ xs) (y ∷ ys) h = ground (arith, mismatch_prefix xs ys)

pub prefix_match_prefix :
    (path q : Text) (rest : List Text)
    → components path ≡ components q ++ rest
    → prefix_match path q ≡ some (length (components q))
unfolding prefix_match
prefix_match_prefix path q rest h = rw (h, mismatch-append (components q) rest)

pub prefix_match-some :
    (path q : Text) (n : ℕ)
    → prefix_match path q ≡ some n
    → (n ≡ length (components q))
      × (components path ≡ components q ++ (mismatch (components path) (components q)).0)
unfolding prefix_match
prefix_match-some path q n h = ground (arith, mismatch_prefix (components path) (components q))
