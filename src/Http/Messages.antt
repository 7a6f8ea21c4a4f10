-- ===== src/Http/Messages.antt =====
-- The text that file_missing_to_json makes of the paths.
use storm_tape.Prelude.{
  ℕ, suc, ◌-◌, ◌≤◌, zero, All, ◌≡◌, refl, ap, ◌∙◌, List, [], ◌∷◌, ◌++◌, Text, length, length-append,
  arith, append-nil,
}
use storm_tape.Model.{LogicalPath}
use storm_tape.Path.{text}
use storm_tape.Http.{drop, written_over, quoted, missing_text}

abbrev pub named : LogicalPath → Text
named p = quoted p ++ text " "

drop_all : {A : Type 0} (n : ℕ) (xs : List A) → length xs ≤ n → drop n xs ≡ []
unfolding drop
drop_all zero [] h = refl
drop_all zero (x ∷ xs) h = absurd (omega arith)
drop_all (suc n) [] h = refl
drop_all (suc n) (x ∷ xs) h = drop_all n xs (omega arith)

written_over-covers : (old new : Text) → length old ≤ length new → written_over old new ≡ new
unfolding written_over
written_over-covers old new h = ap (◌++◌ new) (drop_all (length new) old h) ∙ append-nil new

length-drop : {A : Type 0} (n : ℕ) (xs : List A) → length (drop n xs) ≡ length xs - n
unfolding drop
length-drop zero xs = omega arith
length-drop (suc n) [] = omega arith
length-drop (suc n) (x ∷ xs) = omega (arith, length-drop n xs)

length-written_over :
    (old new : Text) (m : ℕ) → length old ≤ m → length new ≤ m → length (written_over old new) ≤ m
unfolding written_over
length-written_over old new m h k =
    omega (arith, length-append new (drop (length new) old), length-drop (length new) old)

-- If the name of the last path is at least as long as the names before it, the message names only the
-- last path: each name is written over the one before.
pub missing_text-last :
    (ps : List LogicalPath) (p : LogicalPath)
    → All (λ q. length (named q) ≤ length (named p)) ps
    → missing_text [] (ps ++ p ∷ []) ≡ named p
unfolding missing_text written_over
missing_text-last ps p h = go [] ps (omega arith) h
  where
    go :
        (acc : Text) (ps : List LogicalPath)
        → length acc ≤ length (named p)
        → All (λ q. length (named q) ≤ length (named p)) ps
        → missing_text acc (ps ++ p ∷ []) ≡ named p
    go acc [] k h = written_over-covers acc (named p) k
    go acc (q ∷ qs) k h =
        go (written_over acc (named q)) qs
          (length-written_over acc (named q) (length (named p)) k h.0) h.1
