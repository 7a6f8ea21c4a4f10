-- ===== src/Tests/Attributes.antt =====
-- Attributes over small file systems: one attribute of one file, and the names of one file.
use storm_tape.Prelude.{
  ℕ, ◌≡◌, refl, sym, ap, subst, append-nil, Bool, true, false, Option, none, some, List, [], ◌∷◌,
  ◌++◌, arith, All, Text, eqb, leb, if◌then◌else◌, length, Bool-cases, inl, inr, keep,
}
use storm_tape.Path.{text}
use storm_tape.Host.{SysCall, ret, errno, enodata, tsm_rect}
use storm_tape.Attributes.{
  Calls, XAttrName, XAttrValue, returns, eexist, erange, valid, get_xattr, set_xattr, has_xattr,
  create_xattr, remove_xattr, list_xattr_names,
}
use storm_tape.Attributes.Kernel.{Documented}
use storm_tape.Attributes.Reading.{reading, get_xattr-reads}
use storm_tape.Attributes.RoundTrip.{get_xattr-set_xattr}
use storm_tape.Attributes.Listing.{
  DocumentedList, IsProper, IsSplit, joined, runs, flush, is_some_text, listing,
  list_xattr_names-reads,
}

-- The attribute, if it is there.
abbrev One : Type 0
One = Option Text

abbrev set_one : Text → Bool → One → SysCall Unit × One
set_one v true (some u) = (errno eexist, some u)
set_one v true none = (ret tt, some v)
set_one v false s = (ret tt, some v)

abbrev read_one : One → ℕ → SysCall (ℕ × Text)
read_one none k = errno enodata
read_one (some v) k =
    if eqb k 0
    then ret (length v, [])
    else if leb (length v) k
    then ret (length v, v)
    else errno erange

abbrev remove_one : One → SysCall Unit × One
remove_one none = (errno enodata, none)
remove_one (some v) = (ret tt, none)

abbrev one_file : (One → One) → Calls One
one_file others = record {
  setxattr = λ p n v create s. set_one v create s;
  getxattr = λ p n k s. read_one s k;
  listxattr = λ p k s. ret (0, []);
  removexattr = λ p n s. remove_one s;
  others = others;
}

set_one-sets :
    (v : Text) (create : Bool) (s s' : One) → set_one v create s ≡ (ret tt, s') → s' ≡ some v
set_one-sets v true (some u) s' e = absurd (ground arith)
set_one-sets v true none s' e = ap (λ x. x.1) (sym e)
set_one-sets v false s s' e = ap (λ x. x.1) (sym e)

set_one-exists :
    (v : Text) (create : Bool) (s s' : One)
    → set_one v create s ≡ (errno eexist, s')
    → (u : Text) × (s' ≡ some u)
set_one-exists v true (some u) s' e = (u, ap (λ x. x.1) (sym e))
set_one-exists v true none s' e = absurd (ground arith)
set_one-exists v false s s' e = absurd (ground arith)

remove_one-removes : (s s' : One) → remove_one s ≡ (ret tt, s') → s' ≡ none
remove_one-removes none s' e = absurd (ground arith)
remove_one-removes (some v) s' e = ap (λ x. x.1) (sym e)

one_file-Documented : (others : One → One) → Documented (one_file others)
one_file-Documented others = record {
  attribute = λ s p n. s;
  size = λ s p n v e. rw e;
  fits = λ s p n v k e h h'. rw e (ground arith);
  short = λ s p n v k e h h'. rw e (ground arith);
  missing = λ s p n k e. rw e;
  sets = λ s s' p n v create e. set_one-sets v create s s' e;
  exists = λ s s' p n v create e. set_one-exists v create s s' e;
  removes = λ s s' p n e. remove_one-removes s s' e;
}

abbrev tsm : XAttrName
tsm = record { name = tsm_rect }

abbrev alone : Calls One
alone = one_file (λ s. s)

valid-tsm : valid tsm ≡ true
unfolding valid
valid-tsm = refl

abbrev a_value : XAttrValue
a_value = record { value = text "longer than the buffer" }

set_it : set_xattr alone (text "/mnt/1") tsm a_value none ≡ (returns (none, tt), some a_value.value)
unfolding set_xattr valid
set_it = refl

get_xattr-set_xattr_example :
    ((get_xattr alone 15 (text "/mnt/1") tsm (some a_value.value)).0 ≡ returns (none, a_value))
    × ((has_xattr alone (text "/mnt/1") tsm (some a_value.value)).0 ≡ returns (none, true))
get_xattr-set_xattr_example =
    get_xattr-set_xattr alone (one_file-Documented (λ s. s)) 15 (text "/mnt/1") tsm a_value none
      (some a_value.value) (omega arith) (λ s. refl) set_it

create_it : create_xattr alone (text "/mnt/1") tsm none ≡ (returns (none, tt), some [])
unfolding create_xattr valid
create_it = refl

remove_it : remove_xattr alone (text "/mnt/1") tsm (some []) ≡ (returns (none, tt), none)
unfolding remove_xattr valid
remove_it = refl

-- Another program takes a character away between two calls.
abbrev shorter : One → One
shorter none = none
shorter (some []) = some []
shorter (some (c ∷ v)) = some v

get_xattr-reads_example :
    (get_xattr (one_file shorter) 2 (text "/mnt/1") tsm (some (text "abcd"))).0
    ≡ reading 2 (some (text "abcd")) (some (text "bcd")) (some (text "cd"))
unfolding one_file-Documented
get_xattr-reads_example =
    get_xattr-reads (one_file shorter) (one_file-Documented shorter) 2 (text "/mnt/1") tsm
      (some (text "abcd")) (omega arith) valid-tsm

-- The value that is returned then has a zero after its end.
padded :
    reading 2 (some (text "abcd")) (some (text "bcd")) (some (text "cd"))
    ≡ returns (none, record { value = text "cd" ++ 0 ∷ [] })
padded = refl

-- The names of a file, which another program may take one of.
abbrev names_in : Bool → List Text
names_in false = tsm_rect ∷ text "user.storm.migrated" ∷ []
names_in true = tsm_rect ∷ []

abbrev list_in : Bool → ℕ → SysCall (ℕ × Text)
list_in s k =
    if eqb k 0
    then ret (length (joined (names_in s)), [])
    else if leb (length (joined (names_in s))) k
    then ret (length (joined (names_in s)), joined (names_in s))
    else errno erange

abbrev listed_file : Calls Bool
listed_file = record {
  setxattr = λ p n v create s. (errno 1, s);
  getxattr = λ p n k s. errno enodata;
  listxattr = λ p k s. list_in s k;
  removexattr = λ p n s. (errno 1, s);
  others = λ s. true;
}

IsProper-names : (s : Bool) → All IsProper (names_in s)
IsProper-names false =
    (((λ e. ground arith), ground arith), (((λ e. ground arith), ground arith), tt))
IsProper-names true = (((λ e. ground arith), ground arith), tt)

listed_file-Documented : DocumentedList listed_file
listed_file-Documented = record {
  names = λ s p. names_in s;
  proper = λ s p. IsProper-names s;
  size = λ s p. refl;
  fits = λ s p k h h'. ground arith;
  short = λ s p k h h'. ground arith;
}

keep-flush :
    (cur : Text) (ts : List Text)
    → keep is_some_text ts ≡ ts
    → keep is_some_text (flush cur ++ ts) ≡ flush cur ++ ts
keep-flush [] ts e = e
keep-flush (c ∷ cs) ts e = ground arith

keep-runs : (cur l : Text) → keep is_some_text (runs cur l) ≡ runs cur l
unfolding runs
keep-runs cur [] =
    subst (λ ts. keep is_some_text ts ≡ ts) (append-nil (flush cur)) (keep-flush cur [] refl)
keep-runs cur (c ∷ l) = elim (Bool-cases (eqb c 0)) [
  | inl is_zero ↦ rw is_zero (keep-flush cur (runs [] l) (keep-runs [] l))
  | inr other ↦ rw other (keep-runs (cur ++ c ∷ []) l)
]

runs-IsSplit : IsSplit (runs [])
runs-IsSplit l = keep-runs [] l

list_xattr_names-reads_example :
    (list_xattr_names listed_file (runs []) (text "/mnt/1") false).0
    ≡ listing (names_in false) (names_in true)
unfolding listed_file-Documented
list_xattr_names-reads_example =
    list_xattr_names-reads listed_file listed_file-Documented (runs []) (text "/mnt/1") false
      runs-IsSplit
