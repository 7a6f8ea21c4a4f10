-- ===== src/Path/Normal.antt =====
-- lexically_normal of an absolute path is its own normal form.
use storm_tape.Prelude.{
  ℕ, ◌≡◌, ◌≢◌, refl, sym, ap, ap₂, ◌∙◌, subst, Bool, true, false, not, ◌&&◌, List, [], ◌∷◌, ◌++◌,
  arith, All, All-append, Text, ◌==◌, eqb, append-nil, if◌then◌else◌, Bool-cases, inl, inr,
}
use mathlib.Core.List.{reverse, reverse-append, reverse-reverse}
use storm_tape.Path.{
  slash, dot_dot, is_absolute, split, cons_head, filenames, names, join, push_name, normal_names,
  normal_text, or_dot, lexically_normal,
}
use storm_tape.Path.Kept.{
  IsKept, names-AreSlashFree, normal_names-AreKept, filenames-join, filenames-join-slash,
  normal_names-kept,
}

head-some : (c : ℕ) (ns : List Text) → cons_head c ns ≢ []
unfolding cons_head
head-some c [] e = cc
head-some c (n ∷ ns) e = cc

split-some : (t : Text) → split t ≢ []
unfolding split cons_head
split-some [] e = cc
split-some (c ∷ t) e = elim (Bool-cases (eqb c slash)) [
  | inl h ↦ ground arith
  | inr h ↦ head-some c (split t) (rw h at e)
]

-- After the root directory.
names-root : (t : Text) → names (slash ∷ t) ≡ filenames false (split t)
unfolding names split
names-root t = go (split t) (split-some t)
  where
    go : (ns : List Text) → ns ≢ [] → filenames false ([] ∷ ns) ≡ filenames false ns
    go [] n = absurd (n refl)
    go (m ∷ ns) n = refl

module _ (n : Text) (ns : List Text) (h : All IsKept (n ∷ ns)) where
  read_back : normal_names true [] false (names (slash ∷ join (n ∷ ns))) ≡ (reverse (n ∷ ns), false)
  unfolding normal_names
  read_back =
      ap (normal_names true [] false) (
        names-root (join (n ∷ ns)) ∙ filenames-join n ns false h ∙ ap (◌∷◌ n) (sym (append-nil ns)))
      ∙ normal_names-kept [] false n ns [] h
      ∙ ap (λ st. (st, false)) (append-nil (reverse (n ∷ ns)))

  read_back_slash :
      normal_names true [] false (names (slash ∷ (join (n ∷ ns) ++ slash ∷ [])))
      ≡ (reverse (n ∷ ns), true)
  unfolding normal_names push_name
  read_back_slash =
      ap (normal_names true [] false)
        (names-root (join (n ∷ ns) ++ slash ∷ []) ∙ filenames-join-slash n ns false h)
      ∙ normal_names-kept [] false n ns ([] ∷ []) h
      ∙ ap (λ st. (st, true)) (append-nil (reverse (n ∷ ns)))

  -- The path of kept filenames, with a separator at its end or not, is normal.
  normal-kept :
      (trailing : Bool)
      → (let t = slash ∷ (join (n ∷ ns) ++ (if trailing then slash ∷ [] else [])) in
          lexically_normal t ≡ slash ∷ normal_text (reverse (n ∷ ns)) trailing)
  unfolding lexically_normal or_dot is_absolute
  normal-kept true = ap (λ x. slash ∷ normal_text x.0 x.1) read_back_slash
  normal-kept false =
      ap (λ t. lexically_normal (slash ∷ t)) (append-nil (join (n ∷ ns)))
      ∙ ap (λ x. slash ∷ normal_text x.0 x.1) read_back

-- The reverse of a list with an element has one.
pub reverse-some :
    (top : Text) (stack : List Text)
    → (n : Text) × (ns : List Text) × (reverse (top ∷ stack) ≡ n ∷ ns)
reverse-some top stack = go (reverse (top ∷ stack)) refl
  where
    go :
        (xs : List Text)
        → reverse (top ∷ stack) ≡ xs
        → (n : Text) × (ns : List Text) × (reverse (top ∷ stack) ≡ n ∷ ns)
    go [] e = absurd (cons-nil (sym (reverse-reverse (top ∷ stack)) ∙ ap reverse e))
      where
        cons-nil : top ∷ stack ≡ [] → ⊥
        cons-nil e = cc
    go (n ∷ ns) e = (n, ns, e)

pub All-reverse : (P : Text → Type 0) (xs : List Text) → All P xs → All P (reverse xs)
All-reverse P [] h = tt
All-reverse P (x ∷ xs) h =
    subst (All P) (sym (reverse-append (x ∷ []) xs))
      (All-append P (reverse xs) (x ∷ []) (All-reverse P xs h.1) (h.0, tt))

normal-stack :
    (stack : List Text) (trailing : Bool)
    → All IsKept stack
    → lexically_normal (slash ∷ normal_text stack trailing) ≡ slash ∷ normal_text stack trailing
unfolding normal_text
normal-stack [] trailing h = unfold lexically_normal in refl
normal-stack (top ∷ stack) trailing h =
    let (n, ns, e) = reverse-some top stack in
    let same : normal_text (top ∷ stack) trailing
        ≡ join (n ∷ ns) ++ (if trailing then slash ∷ [] else []) =
      ap₂ (λ xs b. join xs ++ (if b then slash ∷ [] else [])) e (ended trailing h.0.2) in
    ap (λ t. lexically_normal (slash ∷ t)) same
    ∙ normal-kept n ns (subst (All IsKept) e (All-reverse IsKept (top ∷ stack) h)) trailing
    ∙ ap (λ st. slash ∷ normal_text st trailing)
        (ap reverse (sym e) ∙ reverse-reverse (top ∷ stack))
  where
    ended : (b : Bool) → (top == dot_dot) ≡ false → (b && not (top == dot_dot)) ≡ b
    ended true k = rw k
    ended false k = refl

normal-of_absolute :
    (path : Text)
    → is_absolute path ≡ true
    → (stack : List Text) × (trailing : Bool) × All IsKept stack
      × (lexically_normal path ≡ slash ∷ normal_text stack trailing)
unfolding lexically_normal or_dot
normal-of_absolute [] h = absurd (unfold is_absolute in ground arith)
normal-of_absolute (c ∷ t) h =
    let kept = normal_names true [] false (names (c ∷ t)) in
    (
      kept.0,
      kept.1,
      normal_names-AreKept [] false (names (c ∷ t)) (names-AreSlashFree (c ∷ t)) tt,
      rw h,
    )

-- The normal form of an absolute path is its own normal form, and absolute.
pub lexically_normal_idem :
    (path : Text)
    → is_absolute path ≡ true
    → (lexically_normal (lexically_normal path) ≡ lexically_normal path)
      × (is_absolute (lexically_normal path) ≡ true)
lexically_normal_idem path h =
    let (stack, trailing, kept, e) = normal-of_absolute path h in
    (
      ap lexically_normal e ∙ normal-stack stack trailing kept ∙ sym e,
      ap is_absolute e ∙ (unfold is_absolute in refl),
    )
