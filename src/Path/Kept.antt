-- ===== src/Path/Kept.antt =====
-- The filenames that lexically_normal keeps of an absolute path, and that they are read back from its
-- text.
use storm_tape.Prelude.{
  ℕ, ◌≡◌, refl, sym, ap, ◌∙◌, Bool, true, false, not, ◌&&◌, List, [], ◌∷◌, ◌++◌, arith, All, Text,
  ◌==◌, eqb, append_assoc, Bool-cases, inl, inr,
}
use mathlib.Core.List.{reverse, reverse-append}
use storm_tape.Path.{
  slash, dot, dot_dot, is_empty, split, cons_head, filenames, names, join, go_up, push_name,
  normal_names,
}

abbrev pub no_slash : Text → Bool
no_slash [] = true
no_slash (c ∷ t) = not (eqb c slash) && no_slash t

-- A filename that is kept: not empty, no dot and no dot-dot.
abbrev pub IsKept : Text → Type 0
IsKept n = (is_empty n ≡ false) × (n == dot ≡ false) × (n == dot_dot ≡ false) × (no_slash n ≡ true)

abbrev pub AreSlashFree : List Text → Type 0
AreSlashFree = All (λ n. no_slash n ≡ true)

cons_head-AreSlashFree :
    (c : ℕ) (ns : List Text) → eqb c slash ≡ false → AreSlashFree ns → AreSlashFree (cons_head c ns)
unfolding cons_head
cons_head-AreSlashFree c [] e h = (rw e, tt)
cons_head-AreSlashFree c (n ∷ ns) e h = (rw (e, h.0), h.1)

split-AreSlashFree : (t : Text) → AreSlashFree (split t)
unfolding split
split-AreSlashFree [] = (refl, tt)
split-AreSlashFree (c ∷ t) = elim (Bool-cases (eqb c slash)) [
  | inl e ↦ rw e (refl, split-AreSlashFree t)
  | inr e ↦ rw e (cons_head-AreSlashFree c (split t) e (split-AreSlashFree t))
]

filenames-AreSlashFree :
    (seen : Bool) (ns : List Text) → AreSlashFree ns → AreSlashFree (filenames seen ns)
unfolding filenames
filenames-AreSlashFree seen [] h = tt
filenames-AreSlashFree true ([] ∷ []) h = (refl, tt)
filenames-AreSlashFree false ([] ∷ []) h = tt
filenames-AreSlashFree seen ([] ∷ n ∷ ns) h = filenames-AreSlashFree seen (n ∷ ns) h.1
filenames-AreSlashFree seen ((c ∷ n) ∷ ns) h = (h.0, filenames-AreSlashFree true ns h.1)

pub names-AreSlashFree : (t : Text) → AreSlashFree (names t)
unfolding names
names-AreSlashFree t = filenames-AreSlashFree false (split t) (split-AreSlashFree t)

go_up-AreKept : (stack : List Text) → All IsKept stack → All IsKept (go_up true stack).0
unfolding go_up
go_up-AreKept [] h = tt
go_up-AreKept (top ∷ stack) h = rw h.0.2 h.1

-- Below the root, what is kept is a list of such filenames.
push_name-AreKept :
    (stack : List Text) (n : Text)
    → no_slash n ≡ true
    → All IsKept stack
    → All IsKept (push_name true stack n).0
unfolding push_name
push_name-AreKept stack n s h = elim (Bool-cases (is_empty n)) [
  | inl e ↦ rw e h
  | inr e ↦ elim (Bool-cases (n == dot)) [
    | inl d ↦ rw (e, d) h
    | inr d ↦ elim (Bool-cases (n == dot_dot)) [
      | inl up ↦ rw (e, d, up) (go_up-AreKept stack h)
      | inr other ↦ rw (e, d, other) ((e, d, other, s), h)
    ]
  ]
]

pub normal_names-AreKept :
    (stack : List Text) (trailing : Bool) (ns : List Text)
    → AreSlashFree ns
    → All IsKept stack
    → All IsKept (normal_names true stack trailing ns).0
unfolding normal_names
normal_names-AreKept stack trailing [] s h = h
normal_names-AreKept stack trailing (n ∷ ns) s h =
    normal_names-AreKept (push_name true stack n).0 (push_name true stack n).1 ns s.1
      (push_name-AreKept stack n s.0 h)

split-cons : (n t : Text) → no_slash n ≡ true → split (n ++ slash ∷ t) ≡ n ∷ split t
unfolding split cons_head
split-cons [] t h = refl
split-cons (c ∷ n) t h = rw (split-cons n t (ground arith)) (ground arith)

split-single : (n : Text) → no_slash n ≡ true → split n ≡ n ∷ []
unfolding split cons_head
split-single [] h = refl
split-single (c ∷ n) h = rw (split-single n (ground arith)) (ground arith)

filenames-kept :
    (n : Text) (ns : List Text) (seen : Bool)
    → is_empty n ≡ false
    → filenames seen (n ∷ ns) ≡ n ∷ filenames true ns
unfolding filenames
filenames-kept [] ns seen h = cc
filenames-kept (c ∷ n) ns seen h = refl

-- The filenames of a normal path, read back.
pub filenames-join :
    (n : Text) (ns : List Text) (seen : Bool)
    → All IsKept (n ∷ ns)
    → filenames seen (split (join (n ∷ ns))) ≡ n ∷ ns
unfolding join filenames
filenames-join n [] seen h =
    ap (filenames seen) (split-single n h.0.3) ∙ filenames-kept n [] seen h.0.0
filenames-join n (m ∷ ns) seen h =
    ap (filenames seen) (split-cons n (join (m ∷ ns)) h.0.3)
    ∙ filenames-kept n (split (join (m ∷ ns))) seen h.0.0
    ∙ ap (◌∷◌ n) (filenames-join m ns true h.1)

pub filenames-join-slash :
    (n : Text) (ns : List Text) (seen : Bool)
    → All IsKept (n ∷ ns)
    → filenames seen (split (join (n ∷ ns) ++ slash ∷ [])) ≡ n ∷ (ns ++ [] ∷ [])
unfolding join filenames split
filenames-join-slash n [] seen h =
    ap (filenames seen) (split-cons n [] h.0.3) ∙ filenames-kept n ([] ∷ []) seen h.0.0
filenames-join-slash n (m ∷ ns) seen h =
    ap (λ t. filenames seen (split t)) (append_assoc n (slash ∷ join (m ∷ ns)) (slash ∷ []))
    ∙ ap (filenames seen) (split-cons n (join (m ∷ ns) ++ slash ∷ []) h.0.3)
    ∙ filenames-kept n (split (join (m ∷ ns) ++ slash ∷ [])) seen h.0.0
    ∙ ap (◌∷◌ n) (filenames-join-slash m ns true h.1)

push_name-kept :
    (stack : List Text) (n : Text) → IsKept n → push_name true stack n ≡ (n ∷ stack, false)
unfolding push_name
push_name-kept stack n h = rw (h.0, h.1, h.2)

-- Filenames that are all kept.
pub normal_names-kept :
    (stack : List Text) (trailing : Bool) (n : Text) (ns more : List Text)
    → All IsKept (n ∷ ns)
    → normal_names true stack trailing (n ∷ (ns ++ more))
      ≡ normal_names true (reverse (n ∷ ns) ++ stack) false more
unfolding normal_names
normal_names-kept stack trailing n [] more h =
    ap (λ x. normal_names true x.0 x.1 more) (push_name-kept stack n h.0)
normal_names-kept stack trailing n (m ∷ ns) more h =
    ap (λ x. normal_names true x.0 x.1 (m ∷ (ns ++ more))) (push_name-kept stack n h.0)
    ∙ normal_names-kept (n ∷ stack) false m ns more h.1
    ∙ ap (λ st. normal_names true st false more)
        (sym (append_assoc (reverse (m ∷ ns)) (n ∷ []) stack)
          ∙ ap (λ st. st ++ stack) (sym (reverse-append (n ∷ []) (m ∷ ns))))
