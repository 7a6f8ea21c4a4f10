-- ===== src/Config/Distinct.antt =====
-- The idiom of load_storage_areas: in a sorted vector, no two adjacent elements that are equivalent
-- means no two at all.
use storm_tape.Prelude.{◌≡◌, refl, Bool, true, false, ◌||◌, List, [], ◌∷◌, arith, All}
use storm_tape.Algorithm.Sorting.{IsSorted, IsWeakOrder}
use storm_tape.Algorithm.Difference.{IsIncreasing}
use storm_tape.Config.{has_adjacent, has_any}

module _ {A : Type 0} {lt : A → A → Bool} (o : IsWeakOrder lt) (same : A → A → Bool) where
  before-All :
      (x y : A) (zs : List A)
      → lt x y ≡ true
      → All (λ z. lt z y ≡ false) zs
      → All (λ z. lt x z ≡ true) zs
  before-All x y [] h a = tt
  before-All x y (z ∷ zs) h a = (go (lt x z) refl, before-All x y zs h a.1)
    where
      go : (b : Bool) → lt x z ≡ b → b ≡ true
      go true e = refl
      go false e = absurd (ground (arith, o.le_trans y z x a.0 e))

  -- `same` is the equivalence of the order.
  pub IsIncreasing-of_adjacent :
      ((x y : A) → lt x y ≡ false → lt y x ≡ false → same x y ≡ true)
      → (xs : List A) → IsSorted lt xs
      → has_adjacent same xs ≡ false
      → IsIncreasing lt xs
  unfolding has_adjacent
  IsIncreasing-of_adjacent eq [] s h = tt
  IsIncreasing-of_adjacent eq (x ∷ []) s h = (tt, tt)
  IsIncreasing-of_adjacent eq (x ∷ y ∷ ys) s h =
      let xy = less (lt x y) refl (same x y) refl h in
      (
        (xy, before-All x y ys xy s.1.0),
        IsIncreasing-of_adjacent eq (y ∷ ys) s.1 (rest (same x y) h),
      )
    where
      less :
          (b : Bool)
          → lt x y ≡ b
          → (c : Bool) → same x y ≡ c
          → (c || has_adjacent same (y ∷ ys)) ≡ false
          → b ≡ true
      less true e c e' h = refl
      less false e true e' h = absurd (ground arith)
      less false e false e' h = absurd (ground (arith, eq x y e s.0.0))

      rest :
          (c : Bool)
          → (c || has_adjacent same (y ∷ ys)) ≡ false
          → has_adjacent same (y ∷ ys) ≡ false
      rest true h = absurd (ground arith)
      rest false h = h

pub has_any-false :
    {A : Type 0} (p : A → Bool) (xs : List A) → has_any p xs ≡ false → All (λ x. p x ≡ false) xs
unfolding has_any
has_any-false p [] h = tt
has_any-false p (x ∷ xs) h = go (p x) refl h (has_any-false p xs)
  where
    go :
        (b : Bool)
        → p x ≡ b
        → (b || has_any p xs) ≡ false
        → (has_any p xs ≡ false → All (λ x. p x ≡ false) xs)
        → (p x ≡ false) × All (λ x. p x ≡ false) xs
    go true e h f = absurd (ground arith)
    go false e h f = (e, f h)
