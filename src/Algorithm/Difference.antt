-- ===== src/Algorithm/Difference.antt =====
-- What std::set_difference returns: nothing that is missing from the second range is lost, whatever
-- the order; and on sorted ranges nothing is returned that is not missing.
use storm_tape.Prelude.{
  ◌≡◌, sym, subst, Bool, true, false, not, ◌&&◌, List, [], ◌∷◌, All, In, All-In, arith, Bool-cases,
  inl, inr,
}
use storm_tape.Algorithm.{set_difference}
use storm_tape.Algorithm.Sorting.{IsSorted, IsWeakOrder}

module _ {A : Type 0} (lt : A → A → Bool) where
  abbrev pub equivalent : A → A → Bool
  equivalent x y = not (lt x y) && not (lt y x)

  -- No element of the list is equivalent to `x`.
  abbrev pub Missing : A → List A → Type 0
  Missing x = All (λ y. equivalent x y ≡ false)

  -- The three ways on from two heads.
  pub data Turn (x : A) (xs : List A) (y : A) (ys : List A) : Type 0 where
    less :
        lt x y ≡ true
        → set_difference lt (x ∷ xs) (y ∷ ys) ≡ x ∷ set_difference lt xs (y ∷ ys)
        → Turn x xs y ys
    greater :
        lt x y ≡ false
        → lt y x ≡ true
        → set_difference lt (x ∷ xs) (y ∷ ys) ≡ set_difference lt (x ∷ xs) ys
        → Turn x xs y ys
    same :
        lt x y ≡ false
        → lt y x ≡ false
        → set_difference lt (x ∷ xs) (y ∷ ys) ≡ set_difference lt xs ys
        → Turn x xs y ys

  pub turn : (x : A) (xs : List A) (y : A) (ys : List A) → Turn x xs y ys
  unfolding set_difference
  turn x xs y ys = elim (Bool-cases (lt x y)) [
    | inl e ↦ less e (rw (e, set_difference))
    | inr e ↦ elim (Bool-cases (lt y x)) [
      | inl e' ↦ greater e e' (rw (e, set_difference, e'))
      | inr e' ↦ same e e' (rw (e, set_difference, e'))
    ]
  ]

  not_missing : (x y z : A) → equivalent z y ≡ false → lt x y ≡ false → lt y x ≡ false → z ≡ x → ⊥
  not_missing x y z h e e' q = ground (arith, subst (λ u. equivalent u y ≡ false) q h)

  pub set_difference_keeps :
      (z : A) (xs ys : List A) → In z xs → Missing z ys → In z (set_difference lt xs ys)
  unfolding set_difference
  set_difference_keeps z [] ys m a = m
  set_difference_keeps z (x ∷ xs) [] m a = m
  set_difference_keeps z (x ∷ xs) (y ∷ ys) m a =
      go (turn x xs y ys) m (λ k. set_difference_keeps z xs (y ∷ ys) k a)
        (set_difference_keeps z (x ∷ xs) ys m a.1) (λ k. set_difference_keeps z xs ys k a.1)
    where
      go :
          Turn x xs y ys
          → In z (x ∷ xs)
          → (In z xs → In z (set_difference lt xs (y ∷ ys)))
          → In z (set_difference lt (x ∷ xs) ys)
          → (In z xs → In z (set_difference lt xs ys))
          → In z (set_difference lt (x ∷ xs) (y ∷ ys))
      go (less e q) (inl k) f g h = subst (In z) (sym q) (inl k)
      go (less e q) (inr k) f g h = subst (In z) (sym q) (inr (f k))
      go (greater e e' q) k f g h = subst (In z) (sym q) g
      go (same e e' q) (inl k) f g h = absurd (not_missing x y z a.0 e e' k)
      go (same e e' q) (inr k) f g h = subst (In z) (sym q) (h k)

  pub set_difference-In : (z : A) (xs ys : List A) → In z (set_difference lt xs ys) → In z xs
  unfolding set_difference
  set_difference-In z [] ys m = m
  set_difference-In z (x ∷ xs) [] m = m
  set_difference-In z (x ∷ xs) (y ∷ ys) m =
      go (turn x xs y ys) (set_difference-In z xs (y ∷ ys)) (set_difference-In z (x ∷ xs) ys)
        (set_difference-In z xs ys)
    where
      after_less :
          In z (x ∷ set_difference lt xs (y ∷ ys))
          → (In z (set_difference lt xs (y ∷ ys)) → In z xs)
          → In z (x ∷ xs)
      after_less (inl k) f = inl k
      after_less (inr k) f = inr (f k)

      go :
          Turn x xs y ys
          → (In z (set_difference lt xs (y ∷ ys)) → In z xs)
          → (In z (set_difference lt (x ∷ xs) ys) → In z (x ∷ xs))
          → (In z (set_difference lt xs ys) → In z xs)
          → In z (x ∷ xs)
      go (less e q) f g h = after_less (subst (In z) q m) f
      go (greater e e' q) f g h = g (subst (In z) q m)
      go (same e e' q) f g h = inr (h (subst (In z) q m))

  -- Each element is less than all that follow.
  abbrev pub IsIncreasing : List A → Type 0
  IsIncreasing [] = Unit
  IsIncreasing (x ∷ xs) = All (λ y. lt x y ≡ true) xs × IsIncreasing xs

module _ {A : Type 0} {lt : A → A → Bool} (o : IsWeakOrder lt) where
  above-Missing :
      (x y : A) (ys : List A) → lt x y ≡ true → All (λ z. lt z y ≡ false) ys → Missing lt x (y ∷ ys)
  above-Missing x y ys e a = (ground arith, go ys a)
    where
      go : (ys : List A) → All (λ z. lt z y ≡ false) ys → Missing lt x ys
      go [] a = tt
      go (z ∷ ys) a = (ground (arith, below x y z e a.0), go ys a.1)
        where
          below : (x y z : A) → lt x y ≡ true → lt z y ≡ false → lt x z ≡ true
          below x y z e h = elim (Bool-cases (lt x z)) [
            | inl l ↦ l
            | inr l ↦ absurd (ground (arith, o.le_trans y z x h l))
          ]

  past : (x y z : A) → lt x y ≡ false → lt x z ≡ true → lt y z ≡ true
  past x y z h e = elim (Bool-cases (lt y z)) [
    | inl l ↦ l
    | inr l ↦ absurd (ground (arith, o.le_trans z y x l h))
  ]

  past_missing : (x y z : A) → lt x y ≡ false → lt x z ≡ true → equivalent lt z y ≡ false
  past_missing x y z h e = ground (arith, past x y z h e)

  pub set_difference-Missing :
      (z : A) (xs ys : List A)
      → IsIncreasing lt xs
      → IsSorted lt ys
      → In z (set_difference lt xs ys)
      → Missing lt z ys
  unfolding set_difference
  set_difference-Missing z [] ys i s m = absurd m
  set_difference-Missing z (x ∷ xs) [] i s m = tt
  set_difference-Missing z (x ∷ xs) (y ∷ ys) i s m =
      go (turn lt x xs y ys) (set_difference-Missing z xs (y ∷ ys) i.1 s)
        (set_difference-Missing z (x ∷ xs) ys i s.1) (set_difference-Missing z xs ys i.1 s.1)
    where
      after_less :
          lt x y ≡ true
          → (In z (set_difference lt xs (y ∷ ys)) → Missing lt z (y ∷ ys))
          → In z (x ∷ set_difference lt xs (y ∷ ys))
          → Missing lt z (y ∷ ys)
      after_less e f (inl k) =
          subst (λ u. Missing lt u (y ∷ ys)) (sym k) (above-Missing x y ys e s.0)
      after_less e f (inr k) = f k

      head : lt y x ≡ true → In z (x ∷ xs) → equivalent lt z y ≡ false
      head e (inl k) = subst (λ u. equivalent lt u y ≡ false) (sym k) (ground arith)
      head e (inr k) = past_missing x y z (o.asymm y x e) (All-In (λ u. lt x u ≡ true) z xs i.0 k)

      go :
          Turn lt x xs y ys
          → (In z (set_difference lt xs (y ∷ ys)) → Missing lt z (y ∷ ys))
          → (In z (set_difference lt (x ∷ xs) ys) → Missing lt z ys)
          → (In z (set_difference lt xs ys) → Missing lt z ys)
          → Missing lt z (y ∷ ys)
      go (less e q) f g h = after_less e f (subst (In z) q m)
      go (greater e e' q) f g h =
          let k = subst (In z) q m in (head e' (set_difference-In lt z (x ∷ xs) ys k), g k)
      go (same e e' q) f g h =
          let k = subst (In z) q m in
          (
            past_missing x y z e
                (All-In (λ u. lt x u ≡ true) z xs i.0 (set_difference-In lt z xs ys k)),
            h k,
          )
