-- ===== src/Algorithm/Matching.antt =====
-- When std::set_difference leaves nothing of a range that is as long as the other: the two then agree
-- element by element, so that the second is in order if the first is.
use mathlib.Core.Nat
use mathlib.Core.List
use mathlib.Core.List.{Perm}
use mathlib.Core.List.Perm
use storm_tape.Prelude.{
  ◌≡◌, sym, ◌∙◌, refl, ap, Bool, false, List, [], ◌∷◌, All, arith, length, ◌≤◌, suc, ℕ,
}
use storm_tape.Algorithm.{set_difference}
use storm_tape.Algorithm.Sorting.{IsSorted, IsWeakOrder}
use storm_tape.Algorithm.Difference.{turn, less, greater, same}

native : Nat.ℕ → ℕ
native Nat.zero = 0
native (Nat.suc n) = suc (native n)

native-length : {A : Type 0} (xs : List A) → length xs ≡ native (List.length xs)
unfolding native
native-length [] = refl
native-length (x ∷ xs) = omega (arith, native-length xs)

pub length-Perm : {A : Type 0} {xs ys : List A} → Perm xs ys → length xs ≡ length ys
length-Perm {xs = xs} {ys = ys} p =
    native-length xs ∙ ap native (Perm.length-eq p) ∙ sym (native-length ys)

module _ {A : Type 0} (lt : A → A → Bool) where
  -- Element by element.
  abbrev pub AreEquivalent : List A → List A → Type 0
  AreEquivalent [] [] = Unit
  AreEquivalent [] (y ∷ ys) = ⊥
  AreEquivalent (x ∷ xs) [] = ⊥
  AreEquivalent (x ∷ xs) (y ∷ ys) = (lt x y ≡ false) × (lt y x ≡ false) × AreEquivalent xs ys

  set_difference-length : (xs ys : List A) → set_difference lt xs ys ≡ [] → length xs ≤ length ys
  unfolding set_difference
  set_difference-length [] ys e = omega arith
  set_difference-length (x ∷ xs) [] e = absurd (ground arith)
  set_difference-length (x ∷ xs) (y ∷ ys) e = elim (turn lt x xs y ys) [
    | less l q ↦ absurd (ground arith)
    | greater l g q ↦ omega (arith, set_difference-length (x ∷ xs) ys (sym q ∙ e))
    | same l g q ↦ omega (arith, set_difference-length xs ys (sym q ∙ e))
  ]

  pub set_difference-AreEquivalent :
      (xs ys : List A) → set_difference lt xs ys ≡ [] → length ys ≤ length xs → AreEquivalent xs ys
  unfolding set_difference
  set_difference-AreEquivalent [] [] e h = tt
  set_difference-AreEquivalent [] (y ∷ ys) e h = absurd (omega arith)
  set_difference-AreEquivalent (x ∷ xs) [] e h = absurd (ground arith)
  set_difference-AreEquivalent (x ∷ xs) (y ∷ ys) e h = elim (turn lt x xs y ys) [
    | less l q ↦ absurd (ground arith)
    | greater l g q ↦ absurd (omega (arith, h, set_difference-length (x ∷ xs) ys (sym q ∙ e)))
    | same l g q ↦ (l, g, set_difference-AreEquivalent xs ys (sym q ∙ e) (omega (arith, h)))
  ]

module _ {A : Type 0} {lt : A → A → Bool} (o : IsWeakOrder lt) where
  below_all :
      (x y : A) (xs ys : List A)
      → lt x y ≡ false
      → AreEquivalent lt xs ys
      → All (λ z. lt z x ≡ false) xs
      → All (λ z. lt z y ≡ false) ys
  below_all x y [] [] e q a = tt
  below_all x y [] (z ∷ ys) e q a = absurd q
  below_all x y (w ∷ xs) [] e q a = absurd q
  below_all x y (w ∷ xs) (z ∷ ys) e q a =
      (o.le_trans y x z e (o.le_trans x w z a.0 q.1), below_all x y xs ys e q.2 a.1)

  pub AreEquivalent-IsSorted :
      (xs ys : List A) → AreEquivalent lt xs ys → IsSorted lt xs → IsSorted lt ys
  AreEquivalent-IsSorted [] [] q s = tt
  AreEquivalent-IsSorted [] (y ∷ ys) q s = absurd q
  AreEquivalent-IsSorted (x ∷ xs) [] q s = absurd q
  AreEquivalent-IsSorted (x ∷ xs) (y ∷ ys) q s =
      (below_all x y xs ys q.0 q.2 s.0, AreEquivalent-IsSorted xs ys q.2 s.1)
