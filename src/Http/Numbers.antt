-- ===== src/Http/Numbers.antt =====
-- Decimal numbers: what fmt and std::to_string print, and what std::from_chars reads.
use storm_tape.Prelude.{
  ℕ, zero, suc, ◌+◌, ◌-◌, ◌*◌, ◌≤◌, ◌<◌, ◌≡◌, ◌≢◌, refl, ap, ◌∙◌, Bool, true, false, ◌&&◌, Option,
  none, some, [], ◌∷◌, ◌++◌, Text, leb, ltb, if◌then◌else◌, arith, Bool-cases, inl, inr,
}
use Prim.Native.Nat.{◌/◌, ◌%◌, ◌^◌}

unfoldable pub digits : ℕ → ℕ → Text
digits zero n = []
digits (suc fuel) n =
    let high = digits fuel (n / 10) in
    if ltb n 10 then (48 + n) ∷ [] else high ++ (48 + n % 10) ∷ []

-- The fuel is enough: there are no more digits than `n + 1`.
unfoldable pub decimal : ℕ → Text
unfolding digits
decimal n = digits (suc n) n

read : ℕ → Text → Option ℕ
read acc [] = some acc
read acc (c ∷ cs) =
    let rest = read (acc * 10 + (c - 48)) cs in if leb 48 c && leb c 57 then rest else none

within : Option ℕ → Option ℕ
within none = none
within (some n) = if ltb n (2 ^ 64) then some n else none

-- std::from_chars on the whole text, into a std::size_t: `none` where something is left over, or the
-- value does not fit.
unfoldable pub from_chars : Text → Option ℕ
unfolding read within
from_chars [] = none
from_chars (c ∷ cs) = within (read 0 (c ∷ cs))

read-snoc :
    (acc v c : ℕ) (xs : Text)
    → read acc xs ≡ some v
    → 48 ≤ c
    → c ≤ 57
    → read acc (xs ++ c ∷ []) ≡ some (v * 10 + (c - 48))
unfolding read
read-snoc acc v c [] h l u = ground arith
read-snoc acc v c (x ∷ xs) h l u =
    go (leb 48 x && leb x 57) h (λ k. read-snoc (acc * 10 + (x - 48)) v c xs k l u)
  where
    go :
        (b : Bool)
        → (if b then read (acc * 10 + (x - 48)) xs else none) ≡ some v
        → (read (acc * 10 + (x - 48)) xs ≡ some v
            → read (acc * 10 + (x - 48)) (xs ++ c ∷ []) ≡ some (v * 10 + (c - 48)))
        → (if b then read (acc * 10 + (x - 48)) (xs ++ c ∷ []) else none) ≡ some (v * 10 + (c - 48))
    go true h f = f h
    go false h f = absurd (ground arith)

large_lem : (n : ℕ) → ltb n 10 ≡ false → 10 ≤ n
large_lem n h = ground arith

read-digits : (fuel n : ℕ) → n < fuel → read 0 (digits fuel n) ≡ some n
unfolding digits
read-digits zero n h = absurd (omega arith)
read-digits (suc fuel) n h = elim (Bool-cases (ltb n 10)) [
  | inl small ↦ rw small (unfold read in ground arith)
  | inr large ↦ rw large (
      read-snoc 0 (n / 10) (48 + n % 10) (digits fuel (n / 10))
        (read-digits fuel (n / 10) (omega (arith, large_lem n large))) (omega arith) (omega arith)
      ∙ ap some (omega (arith, large_lem n large)))
]

within-fits : (o : Option ℕ) (n : ℕ) → n < 2 ^ 64 → o ≡ some n → within o ≡ some n
unfolding within
within-fits none n h e = absurd (ground arith)
within-fits (some m) n h e = ground arith

from_chars-some :
    (t : Text) (n : ℕ) → n < 2 ^ 64 → t ≢ [] → read 0 t ≡ some n → from_chars t ≡ some n
unfolding from_chars
from_chars-some [] n h k e = absurd (k refl)
from_chars-some (c ∷ cs) n h k e = within-fits (read 0 (c ∷ cs)) n h e

snoc-some : (xs : Text) (c : ℕ) → xs ++ c ∷ [] ≢ []
snoc-some [] c e = ground arith
snoc-some (x ∷ xs) c e = ground arith

decimal-some : (n : ℕ) → decimal n ≢ []
unfolding decimal
decimal-some n = go (ltb n 10)
  where
    go : (b : Bool) → (if b then (48 + n) ∷ [] else digits n (n / 10) ++ (48 + n % 10) ∷ []) ≢ []
    go true e = ground arith
    go false e = snoc-some (digits n (n / 10)) (48 + n % 10) e

-- What is printed of a number that fits in 64 bits is read back, and all of it is consumed.
pub from_chars-decimal : (n : ℕ) → n < 2 ^ 64 → from_chars (decimal n) ≡ some n
unfolding decimal
from_chars-decimal n h =
    from_chars-some (digits (suc n) n) n h (decimal-some n) (read-digits (suc n) n (omega arith))
