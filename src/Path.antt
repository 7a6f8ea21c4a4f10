-- ===== src/Path.antt =====
-- std::filesystem::path on POSIX, which types.hpp derives LogicalPath and PhysicalPath from: the
-- text is kept as given, and iteration, comparison, lexically_normal, lexically_relative and `/`
-- work on the filenames between the separators.
pub mod Lex
pub mod Order
pub mod Kept
pub mod Normal
pub mod Relative
use storm_tape.Prelude.{
  ℕ, zero, suc, ◌+◌, ◌-◌, ◌≡◌, refl, Bool, true, false, not, ◌&&◌, ◌||◌, Option, none, some, List,
  [], ◌∷◌, ◌++◌, Text, ◌==◌, eqb, ltb, leb, if◌then◌else◌, text_dec,
}
use mathlib.Core.List.{reverse}
use Prim.Native.String.{String}
use Prim.Native.Char.{code}
use Lex.{lex_lt}

-- The bytes of a literal.
abbrev pub text : String → Text
text String.[] = []
text (String.◌∷◌ c s) = code c ∷ text s

abbrev slash : ℕ
slash = b'/'

abbrev pub dot : Text
dot = b'.' ∷ []

abbrev dot_dot : Text
dot_dot = b'.' ∷ b'.' ∷ []

abbrev pub is_empty {ℓ} : {A : Type ℓ} → List A → Bool
is_empty [] = true
is_empty _ = false

-- is_absolute, which on POSIX is has_root_directory
unfoldable pub is_absolute : Text → Bool
is_absolute [] = false
is_absolute (c ∷ t) = eqb c slash

cons_head : ℕ → List Text → List Text
cons_head c [] = (c ∷ []) ∷ []
cons_head c (n ∷ ns) = (c ∷ n) ∷ ns

-- The texts between separators, empty ones included.
pub split : Text → List Text
unfolding cons_head
split [] = [] ∷ []
split (c ∷ t) = let rest = split t in if eqb c slash then [] ∷ rest else cons_head c rest

-- Repeated separators count as one; a separator at the end is an empty last filename.
pub filenames : Bool → List Text → List Text
filenames seen [] = []
filenames seen ([] ∷ []) = if seen then [] ∷ [] else []
filenames seen ([] ∷ n ∷ ns) = filenames seen (n ∷ ns)
filenames seen ((c ∷ n) ∷ ns) = (c ∷ n) ∷ filenames true ns

-- The filenames of a path, in the order of iteration, after the root directory.
unfoldable pub names : Text → List Text
unfolding split filenames
names p = filenames false (split p)

-- begin() to end()
unfoldable pub components : Text → List Text
unfolding names is_absolute
components p = if is_absolute p then (slash ∷ []) ∷ names p else names p

unfoldable pub text_lt : Text → Text → Bool
unfolding lex_lt
text_lt = lex_lt ltb

-- path::compare looks at the root directory first and then at the filenames.
unfoldable pub path_key : Text → List Text
unfolding names is_absolute
path_key p = (if is_absolute p then 1 ∷ [] else 0 ∷ []) ∷ names p

unfoldable pub path_lt : Text → Text → Bool
unfolding path_key text_lt lex_lt
path_lt p q = lex_lt text_lt (path_key p) (path_key q)

unfoldable pub path_eq : Text → Text → Bool
unfolding path_lt
path_eq p q = not (path_lt p q) && not (path_lt q p)

unfoldable pub join : List Text → Text
join [] = []
join (n ∷ []) = n
join (n ∷ m ∷ ns) = n ++ slash ∷ join (m ∷ ns)

-- `..` removes the filename before it; at the root it is dropped.
go_up : Bool → List Text → List Text × Bool
go_up true [] = ([], true)
go_up false [] = (dot_dot ∷ [], false)
go_up root (top ∷ stack) = if top == dot_dot then (dot_dot ∷ top ∷ stack, false) else (stack, true)

-- One filename of lexically_normal: the filenames kept so far, last one first, and whether a
-- separator ends them.
push_name : Bool → List Text → Text → List Text × Bool
unfolding go_up text_dec
push_name root stack n =
    if is_empty n || n == dot
    then (stack, true)
    else if n == dot_dot
    then go_up root stack
    else (n ∷ stack, false)

pub normal_names : Bool → List Text → Bool → List Text → List Text × Bool
unfolding push_name
normal_names root stack trailing [] = (stack, trailing)
normal_names root stack trailing (n ∷ ns) =
    normal_names root (push_name root stack n).0 (push_name root stack n).1 ns

-- The kept filenames as a text; no separator follows a final `..`.
normal_text : List Text → Bool → Text
unfolding join text_dec
normal_text [] trailing = []
normal_text (top ∷ stack) trailing =
    join (reverse (top ∷ stack)) ++ (if trailing && not (top == dot_dot) then slash ∷ [] else [])

or_dot : Text → Text
or_dot [] = dot
or_dot (c ∷ t) = c ∷ t

unfoldable pub lexically_normal : Text → Text
unfolding normal_names normal_text or_dot names is_absolute
lexically_normal [] = []
lexically_normal (c ∷ t) =
    let root = is_absolute (c ∷ t) in
    let (stack, trailing) = normal_names root [] false (names (c ∷ t)) in
    or_dot ((if root then slash ∷ [] else []) ++ normal_text stack trailing)

-- The parts of both lists after their longest common prefix, as std::mismatch.
unfoldable pub mismatch : List Text → List Text → List Text × List Text
unfolding text_dec
mismatch [] ys = ([], ys)
mismatch (x ∷ xs) [] = (x ∷ xs, [])
mismatch (x ∷ xs) (y ∷ ys) = let rest = mismatch xs ys in if x == y then rest else (x ∷ xs, y ∷ ys)

-- The number of steps up that the rest of a base asks for; `none` when it is negative.
unfoldable pub ups : List Text → ℕ → ℕ → Option ℕ
unfolding text_dec
ups [] up down = if leb down up then some (up - down) else none
ups (n ∷ ns) up down =
    ups ns (if is_empty n || n == dot || n == dot_dot then up else up + 1)
      (if n == dot_dot then down + 1 else down)

replicate : ℕ → Text → List Text
replicate zero t = []
replicate (suc n) t = t ∷ replicate n t

abbrev pub first_is_empty : List Text → Bool
first_is_empty [] = true
first_is_empty (n ∷ ns) = is_empty n

unfoldable pub from_ups : Option ℕ → List Text → Text
unfolding replicate join
from_ups none rest = []
from_ups (some zero) rest = if first_is_empty rest then dot else join rest
from_ups (some (suc n)) rest = join (replicate (suc n) dot_dot ++ rest)

-- What lexically_relative makes of the parts that differ.
abbrev pub relative_to : Bool → Bool → List Text × List Text → Text
relative_to abs base_abs (rest, base_rest) =
    if abs && base_abs || not abs && not base_abs
    then (if is_empty rest && is_empty base_rest then dot else from_ups (ups base_rest 0 0) rest)
    else []

unfoldable pub lexically_relative : Text → Text → Text
unfolding from_ups ups
lexically_relative p base =
    relative_to (is_absolute p) (is_absolute base) (mismatch (components p) (components base))

ends_in_name : Text → Bool
ends_in_name [] = false
ends_in_name (c ∷ []) = not (eqb c slash)
ends_in_name (c ∷ d ∷ t) = ends_in_name (d ∷ t)

-- `p / q`
unfoldable pub append : Text → Text → Text
unfolding ends_in_name is_absolute
append p q = if is_absolute q then q else if ends_in_name p then p ++ slash ∷ q else p ++ q
