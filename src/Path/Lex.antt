-- ===== src/Path/Lex.antt =====
-- Lexicographic order on lists, as std::lexicographical_compare, and the laws of a strict order.
use storm_tape.Prelude.{◌≡◌, refl, Bool, true, false, List, [], ◌∷◌, arith, if◌then◌else◌, ltb}

-- A strict total order as a Boolean test.
pub record IsStrictOrder {A : Type 0} (lt : A → A → Bool) : Type 0 where
  pub irrefl : (a : A) → lt a a ≡ false
  pub trans : (a b c : A) → lt a b ≡ true → lt b c ≡ true → lt a c ≡ true
  pub total : (a b : A) → lt a b ≡ false → lt b a ≡ false → a ≡ b

pub ltb-IsStrictOrder : IsStrictOrder ltb
ltb-IsStrictOrder = record {
  irrefl = λ a. ground arith;
  trans = λ a b c h k. ground arith;
  total = λ a b h k. ground arith;
}

module _ {A : Type 0} (lt : A → A → Bool) where
  unfoldable pub lex_lt : List A → List A → Bool
  lex_lt [] [] = false
  lex_lt [] (y ∷ ys) = true
  lex_lt (x ∷ xs) [] = false
  lex_lt (x ∷ xs) (y ∷ ys) =
      let rest = lex_lt xs ys in if lt x y then true else if lt y x then false else rest

module _ {A : Type 0} {lt : A → A → Bool} (o : IsStrictOrder lt) where
  lex_irrefl : (xs : List A) → lex_lt lt xs xs ≡ false
  unfolding lex_lt
  lex_irrefl [] = refl
  lex_irrefl (x ∷ xs) = ground (arith, o.irrefl x, lex_irrefl xs)

  lex_trans :
      (xs ys zs : List A) → lex_lt lt xs ys ≡ true → lex_lt lt ys zs ≡ true → lex_lt lt xs zs ≡ true
  unfolding lex_lt
  lex_trans [] [] zs h k = k
  lex_trans [] (y ∷ ys) [] h k = k
  lex_trans [] (y ∷ ys) (z ∷ zs) h k = refl
  lex_trans (x ∷ xs) [] zs h k = cc
  lex_trans (x ∷ xs) (y ∷ ys) [] h k = k
  lex_trans (x ∷ xs) (y ∷ ys) (z ∷ zs) h k = ground (
    arith,
    o.trans x y z,
    o.trans y z x,
    o.trans z x y,
    o.total x y,
    o.total y z,
    o.irrefl y,
    lex_trans xs ys zs,
  )

  lex-total : (xs ys : List A) → lex_lt lt xs ys ≡ false → lex_lt lt ys xs ≡ false → xs ≡ ys
  unfolding lex_lt
  lex-total [] [] h k = refl
  lex-total [] (y ∷ ys) h k = cc
  lex-total (x ∷ xs) [] h k = cc
  lex-total (x ∷ xs) (y ∷ ys) h k = ground (arith, o.total x y, lex-total xs ys)

  pub lex-IsStrictOrder : IsStrictOrder (lex_lt lt)
  lex-IsStrictOrder = record { irrefl = lex_irrefl; trans = lex_trans; total = lex-total }
