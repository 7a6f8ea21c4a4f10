-- ===== src/Database/Counting.antt =====
-- Lists of texts by how often each text occurs.
use mathlib.Core.List.{Perm, foldr}
use mathlib.Core.List.Perm
use storm_tape.Prelude.{
  ℕ, zero, suc, ◌+◌, ◌-◌, ◌≡◌, refl, sym, ap, ◌∙◌, true, false, List, [], ◌∷◌, ◌++◌, arith, eqb,
  Text, ◌==◌, ==_iff, length, take, if◌then◌else◌, ℕ_discrete,
}
use storm_tape.Database.Sql.{contains, distinct}

abbrev pub count : Text → List Text → ℕ
count p [] = 0
count p (q ∷ qs) = (if q == p then 1 else 0) + count p qs

pub count-append : (p : Text) (xs ys : List Text) → count p (xs ++ ys) ≡ count p xs + count p ys
count-append p [] ys = omega arith
count-append p (x ∷ xs) ys = omega (arith, count-append p xs ys)

count-foldr :
    (p : Text) (xs : List Text) → count p xs ≡ foldr (λ q n. (if q == p then 1 else 0) + n) 0 xs
count-foldr p [] = refl
count-foldr p (x ∷ xs) = ap (λ (n : ℕ). (if x == p then 1 else 0) + n) (count-foldr p xs)

-- The list without the first occurrence of a text.
erase_first : Text → List Text → List Text
erase_first p [] = []
erase_first p (q ∷ qs) = let rest = erase_first p qs in if q == p then qs else q ∷ rest

length-erase_first :
    (p : Text) (n : ℕ) (xs : List Text)
    → count p xs ≡ suc n
    → length xs ≡ suc (length (erase_first p xs))
unfolding erase_first
length-erase_first p n [] h = absurd (omega (arith, h))
length-erase_first p n (x ∷ xs) h = ground (arith, length-erase_first p n xs)

count-erase_first :
    (p q : Text) (n : ℕ) (xs : List Text)
    → count p xs ≡ suc n
    → count q xs ≡ (if p == q then 1 else 0) + count q (erase_first p xs)
unfolding erase_first
count-erase_first p q n [] h = absurd (omega (arith, h))
count-erase_first p q n (x ∷ xs) h = ground (arith, count-erase_first p q n xs, ==_iff x p)

-- Lists in which each text occurs equally often are equally long.
pub length-of_count :
    (xs ys : List Text) → ((p : Text) → count p xs ≡ count p ys) → length xs ≡ length ys
length-of_count [] [] h = refl
length-of_count [] (y ∷ ys) h = absurd (ground (arith, h y, ==_iff y y))
length-of_count (x ∷ xs) ys h =
    let here : count x ys ≡ suc (count x xs) = ground (arith, h x, ==_iff x x) in
    omega (
      arith,
      length-erase_first x (count x xs) ys here,
      length-of_count xs (erase_first x ys)
          λ p. omega (arith, h p, count-erase_first x p (count x xs) ys here),
    )

pub contains-distinct : (p : Text) (xs : List Text) → contains p (distinct xs) ≡ contains p xs
unfolding distinct contains
contains-distinct p [] = refl
contains-distinct p (x ∷ xs) =
    ground (arith, contains-distinct p xs, contains-distinct x xs, ==_iff x p)

-- In a list of distinct texts each occurs at most once.
pub count-distinct :
    (p : Text) (xs : List Text) → count p (distinct xs) ≡ (if contains p xs then 1 else 0)
unfolding distinct contains
count-distinct p [] = refl
count-distinct p (x ∷ xs) = ground (arith, count-distinct p xs, contains-distinct x xs, ==_iff x p)

-- A text occurs if it is counted.
pub contains-of_count :
    (p : Text) (xs : List Text) → contains p xs ≡ (if eqb (count p xs) 0 then false else true)
unfolding contains
contains-of_count p [] = refl
contains-of_count p (x ∷ xs) = ground (arith, contains-of_count p xs)

-- What `take` leaves.
abbrev pub drop : ℕ → List Text → List Text
drop zero xs = xs
drop (suc n) [] = []
drop (suc n) (x ∷ xs) = drop n xs

pub take-drop : (n : ℕ) (xs : List Text) → take n xs ++ drop n xs ≡ xs
take-drop zero xs = refl
take-drop (suc n) [] = refl
take-drop (suc n) (x ∷ xs) = ap (◌∷◌ x) (take-drop n xs)

pub length-drop : (n : ℕ) (xs : List Text) → length (drop n xs) ≡ length xs - n
length-drop zero xs = omega arith
length-drop (suc n) [] = omega arith
length-drop (suc n) (x ∷ xs) = omega (arith, length-drop n xs)

left_comm :
    (p x y : Text) (n : ℕ)
    → (if x == p then 1 else 0) + ((if y == p then 1 else 0) + n)
      ≡ (if y == p then 1 else 0) + ((if x == p then 1 else 0) + n)
left_comm p x y n = omega arith

pub count-perm : (p : Text) (xs ys : List Text) → Perm xs ys → count p xs ≡ count p ys
count-perm p xs ys h =
    count-foldr p xs
    ∙ Perm.foldr-eq (hlevel ℕ_discrete) (λ q n. (if q == p then 1 else 0) + n) (left_comm p) h 0
    ∙ sym (count-foldr p ys)
