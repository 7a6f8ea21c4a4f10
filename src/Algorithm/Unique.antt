-- ===== src/Algorithm/Unique.antt =====
-- std::unique on a sorted range: what is left is strictly increasing.
use storm_tape.Prelude.{◌≡◌, refl, Bool, true, false, List, [], ◌∷◌, arith, All}
use storm_tape.Algorithm.{drop_same, unique}
use storm_tape.Algorithm.Sorting.{IsSorted, IsWeakOrder}
use storm_tape.Algorithm.Difference.{IsIncreasing}

module _ {A : Type 0} {lt : A → A → Bool} (o : IsWeakOrder lt) (same : A → A → Bool)
    (eq : (x y : A) → lt x y ≡ false → lt y x ≡ false → same x y ≡ true) where
  lt_le_trans : (x y z : A) → lt x y ≡ true → lt z y ≡ false → (b : Bool) → lt x z ≡ b → b ≡ true
  lt_le_trans x y z h k true e = refl
  lt_le_trans x y z h k false e = absurd (ground (arith, o.le_trans y z x k e))

  -- What is left of the range after `x`.
  drop_same-IsIncreasing :
      (x : A) (ys : List A)
      → All (λ z. lt z x ≡ false) ys
      → IsSorted lt ys
      → All (λ z. lt x z ≡ true) (drop_same same x ys) × IsIncreasing lt (drop_same same x ys)
  unfolding drop_same
  drop_same-IsIncreasing x [] a s = (tt, tt)
  drop_same-IsIncreasing x (y ∷ ys) a s =
      go (same x y) refl (drop_same-IsIncreasing x ys a.1 s.1) (drop_same-IsIncreasing y ys s.0 s.1)
    where
      less : (b : Bool) → lt x y ≡ b → same x y ≡ false → b ≡ true
      less true e h = refl
      less false e h = absurd (ground (arith, eq x y e a.0))

      above :
          (zs : List A) → lt x y ≡ true → All (λ z. lt y z ≡ true) zs → All (λ z. lt x z ≡ true) zs
      above [] h k = tt
      above (z ∷ zs) h k = (lt_le_trans x y z h (o.asymm y z k.0) (lt x z) refl, above zs h k.1)

      go :
          (b : Bool)
          → same x y ≡ b
          → All (λ z. lt x z ≡ true) (drop_same same x ys) × IsIncreasing lt (drop_same same x ys)
          → All (λ z. lt y z ≡ true) (drop_same same y ys) × IsIncreasing lt (drop_same same y ys)
          → (let rest : List A = elim b [
            | true ↦ drop_same same x ys
            | false ↦ y ∷ drop_same same y ys
          ] in
              All (λ z. lt x z ≡ true) rest × IsIncreasing lt rest)
      go true e f g = f
      go false e f g =
          let xy = less (lt x y) refl e in ((xy, above (drop_same same y ys) xy g.0), g)

  pub unique-IsIncreasing : (xs : List A) → IsSorted lt xs → IsIncreasing lt (unique same xs)
  unfolding unique
  unique-IsIncreasing [] s = tt
  unique-IsIncreasing (x ∷ xs) s = drop_same-IsIncreasing x xs s.0 s.1
