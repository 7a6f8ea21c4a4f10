-- ===== src/Algorithm/Sorting.antt =====
-- std::sort and std::unique keep what holds of every element, and sorting gives a sorted permutation.
use mathlib.Core.List.{Perm}
use mathlib.Core.List.Perm
use storm_tape.Prelude.{
  ◌≡◌, refl, subst, Bool, true, false, List, [], ◌∷◌, All, In, ◌⊎◌, arith, if◌then◌else◌, inl, inr,
}
use storm_tape.Path.Lex.{IsStrictOrder}
use storm_tape.Algorithm.{insert, sort, drop_same, unique}

module _ {A : Type 0} (P : A → Type 0) (lt : A → A → Bool) where
  All-insert : (x : A) (xs : List A) → P x → All P xs → All P (insert lt x xs)
  unfolding insert
  All-insert x [] h k = (h, tt)
  All-insert x (y ∷ ys) h k = ground (arith, All-insert x ys h k.1)

  pub All-sort : (xs : List A) → All P xs → All P (sort lt xs)
  unfolding sort
  All-sort [] h = tt
  All-sort (x ∷ xs) h = All-insert x (sort lt xs) h.0 (All-sort xs h.1)

  All-drop_same : (x : A) (xs : List A) → All P xs → All P (drop_same lt x xs)
  unfolding drop_same
  All-drop_same x [] h = tt
  All-drop_same x (y ∷ ys) h = ground (arith, All-drop_same x ys h.1, All-drop_same y ys h.1)

  pub All-unique : (xs : List A) → All P xs → All P (unique lt xs)
  unfolding unique
  All-unique [] h = tt
  All-unique (x ∷ xs) h = (h.0, All-drop_same x xs h.1)

module _ {A : Type 0} (lt : A → A → Bool) where
  insert-perm : (x : A) (xs : List A) → Perm (insert lt x xs) (x ∷ xs)
  unfolding insert
  insert-perm x [] = Perm.refl (x ∷ [])
  insert-perm x (y ∷ ys) =
      let moved = Perm.trans (Perm.cons y (insert-perm x ys)) (Perm.swap x y ys) in
      ground (arith, moved, Perm.refl (x ∷ y ∷ ys))

  -- Sorting rearranges.
  pub sort-perm : (xs : List A) → Perm (sort lt xs) xs
  unfolding sort
  sort-perm [] = Perm.refl []
  sort-perm (x ∷ xs) = Perm.trans (insert-perm x (sort lt xs)) (Perm.cons x (sort-perm xs))

  In-insert : (z x : A) (xs : List A) → (z ≡ x) ⊎ In z xs → In z (insert lt x xs)
  unfolding insert
  In-insert z x [] (inl e) = inl e
  In-insert z x [] (inr m) = absurd m
  In-insert z x (y ∷ ys) m = go (lt y x) m (In-insert z x ys)
    where
      go :
          (b : Bool)
          → (z ≡ x) ⊎ In z (y ∷ ys)
          → ((z ≡ x) ⊎ In z ys → In z (insert lt x ys))
          → In z (if b then y ∷ insert lt x ys else x ∷ y ∷ ys)
      go true (inl e) f = inr (f (inl e))
      go true (inr (inl e)) f = inl e
      go true (inr (inr m)) f = inr (f (inr m))
      go false (inl e) f = inl e
      go false (inr m) f = inr m

  pub In-sort : (z : A) (xs : List A) → In z xs → In z (sort lt xs)
  unfolding sort
  In-sort z [] m = m
  In-sort z (x ∷ xs) (inl e) = In-insert z x (sort lt xs) (inl e)
  In-sort z (x ∷ xs) (inr m) = In-insert z x (sort lt xs) (inr (In-sort z xs m))

  -- No element comes before one that is less.
  abbrev pub IsSorted : List A → Type 0
  IsSorted [] = Unit
  IsSorted (x ∷ xs) = All (λ y. lt y x ≡ false) xs × IsSorted xs

-- What sorting needs of a comparison: that it is a strict weak order.
pub record IsWeakOrder {A : Type 0} (lt : A → A → Bool) : Type 0 where
  pub asymm : (a b : A) → lt a b ≡ true → lt b a ≡ false
  pub le_trans : (a b c : A) → lt b a ≡ false → lt c b ≡ false → lt c a ≡ false

-- A comparison of keys by a strict total order.
pub strict-IsWeakOrder :
    {A B : Type 0} {lt : A → A → Bool} (o : IsStrictOrder lt) (key : B → A)
    → IsWeakOrder (λ x y. lt (key x) (key y))
strict-IsWeakOrder {A} {B} {lt} o key = record {
  asymm = λ a b h. ground (arith, o.trans (key a) (key b) (key a) h, o.irrefl (key a));
  le_trans = λ a b c h k.
      le_trans (key a) (key b) (key c) h k (lt (key c) (key a)) refl (lt (key a) (key b)) refl;
}
  where
    le_trans :
        (a b c : A)
        → lt b a ≡ false
        → lt c b ≡ false
        → (x : Bool) → lt c a ≡ x
        → (y : Bool) → lt a b ≡ y
        → x ≡ false
    le_trans a b c h k false e y e' = refl
    le_trans a b c h k true e true e' = absurd (ground (arith, o.trans c a b e e'))
    le_trans a b c h k true e false e' =
        absurd (ground (arith, subst (λ z. lt c z ≡ true) (o.total a b e' h) e))

module _ {A : Type 0} {lt : A → A → Bool} (o : IsWeakOrder lt) where
  above_trans :
      (x y : A) (ys : List A)
      → lt y x ≡ false
      → All (λ z. lt z y ≡ false) ys
      → All (λ z. lt z x ≡ false) ys
  above_trans x y [] h a = tt
  above_trans x y (z ∷ ys) h a = (o.le_trans x y z h a.0, above_trans x y ys h a.1)

  insert-IsSorted : (x : A) (xs : List A) → IsSorted lt xs → IsSorted lt (insert lt x xs)
  unfolding insert
  insert-IsSorted x [] s = (tt, tt)
  insert-IsSorted x (y ∷ ys) s = go (lt y x) refl (insert-IsSorted x ys s.1)
    where
      go :
          (b : Bool)
          → lt y x ≡ b
          → IsSorted lt (insert lt x ys)
          → IsSorted lt (if b then y ∷ insert lt x ys else x ∷ y ∷ ys)
      go true e ih = (All-insert (λ z. lt z y ≡ false) lt x ys (o.asymm y x e) s.0, ih)
      go false e ih = ((e, above_trans x y ys e s.0), s)

  pub sort-IsSorted : (xs : List A) → IsSorted lt (sort lt xs)
  unfolding sort
  sort-IsSorted [] = tt
  sort-IsSorted (x ∷ xs) = insert-IsSorted x (sort lt xs) (sort-IsSorted xs)
