-- ===== src/Path/Relative.antt =====
-- lexically_normal of a relative path is relative.
use storm_tape.Prelude.{
  ℕ, ◌≡◌, ◌≢◌, refl, sym, ap, ◌∙◌, Bool, true, false, List, [], ◌∷◌, ◌++◌, arith, All, Text, ◌==◌,
  append_assoc, Bool-cases, inl, inr,
}
use mathlib.Core.List.{reverse}
use storm_tape.Path.{
  slash, dot, dot_dot, is_empty, is_absolute, names, join, go_up, push_name, normal_names,
  normal_text, or_dot, lexically_normal,
}
use storm_tape.Path.Kept.{no_slash, AreSlashFree, names-AreSlashFree}
use storm_tape.Path.Normal.{reverse-some, All-reverse}

-- A filename that is kept in a relative path: it may go up.
abbrev IsFilename : Text → Type 0
IsFilename n = (is_empty n ≡ false) × (no_slash n ≡ true)

go_up-AreFilenames :
    (stack : List Text) → All IsFilename stack → All IsFilename (go_up false stack).0
unfolding go_up
go_up-AreFilenames [] h = ((refl, refl), tt)
go_up-AreFilenames (top ∷ stack) h = elim (Bool-cases (top == dot_dot)) [
  | inl up ↦ rw up ((refl, refl), h)
  | inr other ↦ rw other h.1
]

push_name-AreFilenames :
    (stack : List Text) (n : Text)
    → no_slash n ≡ true
    → All IsFilename stack
    → All IsFilename (push_name false stack n).0
unfolding push_name
push_name-AreFilenames stack n s h = elim (Bool-cases (is_empty n)) [
  | inl e ↦ rw e h
  | inr e ↦ elim (Bool-cases (n == dot)) [
    | inl d ↦ rw (e, d) h
    | inr d ↦ elim (Bool-cases (n == dot_dot)) [
      | inl up ↦ rw (e, d, up) (go_up-AreFilenames stack h)
      | inr other ↦ rw (e, d, other) ((e, s), h)
    ]
  ]
]

normal_names-AreFilenames :
    (stack : List Text) (trailing : Bool) (ns : List Text)
    → AreSlashFree ns
    → All IsFilename stack
    → All IsFilename (normal_names false stack trailing ns).0
unfolding normal_names
normal_names-AreFilenames stack trailing [] s h = h
normal_names-AreFilenames stack trailing (n ∷ ns) s h =
    normal_names-AreFilenames (push_name false stack n).0 (push_name false stack n).1 ns s.1
      (push_name-AreFilenames stack n s.0 h)

relative-append : (n t : Text) → IsFilename n → is_absolute (n ++ t) ≡ false
unfolding is_absolute
relative-append [] t h = cc
relative-append (c ∷ n) t h = ground arith

relative-join :
    (ns : List Text) (t : Text) → ns ≢ [] → All IsFilename ns → is_absolute (join ns ++ t) ≡ false
unfolding join
relative-join [] t n h = absurd (n refl)
relative-join (n ∷ []) t k h = relative-append n t h.0
relative-join (n ∷ m ∷ ns) t k h =
    ap is_absolute (append_assoc n (slash ∷ join (m ∷ ns)) t)
    ∙ relative-append n (slash ∷ (join (m ∷ ns) ++ t)) h.0

relative-normal_text :
    (stack : List Text) (trailing : Bool)
    → All IsFilename stack
    → is_absolute (normal_text stack trailing) ≡ false
unfolding normal_text
relative-normal_text [] trailing h = unfold is_absolute in refl
relative-normal_text (top ∷ stack) trailing h =
    let (n, ns, e) = reverse-some top stack in
    relative-join (reverse (top ∷ stack)) _ (λ nothing. cons-nil n ns (sym e ∙ nothing))
      (All-reverse IsFilename (top ∷ stack) h)
  where
    cons-nil : (n : Text) (ns : List Text) → n ∷ ns ≡ [] → ⊥
    cons-nil n ns e = cc

relative-or_dot : (t : Text) → is_absolute t ≡ false → is_absolute (or_dot t) ≡ false
unfolding or_dot is_absolute
relative-or_dot [] h = refl
relative-or_dot (c ∷ t) h = h

normal-of_relative :
    (c : ℕ) (t : Text)
    → is_absolute (c ∷ t) ≡ false
    → (let kept = normal_names false [] false (names (c ∷ t)) in
        lexically_normal (c ∷ t) ≡ or_dot (normal_text kept.0 kept.1))
unfolding lexically_normal
normal-of_relative c t h = rw h

-- The normal form of a relative path is relative.
pub lexically_normal-relative :
    (path : Text) → is_absolute path ≡ false → is_absolute (lexically_normal path) ≡ false
lexically_normal-relative [] h = unfold lexically_normal in h
lexically_normal-relative (c ∷ t) h =
    let kept = normal_names false [] false (names (c ∷ t)) in
    ap is_absolute (normal-of_relative c t h)
    ∙ relative-or_dot (normal_text kept.0 kept.1) (
        relative-normal_text kept.0 kept.1
          (normal_names-AreFilenames [] false (names (c ∷ t)) (names-AreSlashFree (c ∷ t)) tt))
