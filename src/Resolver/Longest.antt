-- ===== src/Resolver/Longest.antt =====
-- The reduction over the storage areas finds a longest matching access point.
use storm_tape.Prelude.{
  ℕ, ◌≡◌, ◌≢◌, refl, sym, ap, ◌∙◌, subst, Bool-cases, inl, inr, Bool, true, false, Option, none,
  some, List, [], ◌∷◌, arith, Text, All, In, if◌then◌else◌,
}
use storm_tape.Model.{StorageArea}
use storm_tape.Resolver.{
  BestMatch, prefix_match, opt_lt, size_of, max_ap, as_match, best_of_aps, reduce_step, best_match,
  max_match,
}

-- `opt_lt a b ≡ false`, read as b ≤ a, is transitive.
opt_le_trans : (a b c : Option ℕ) → opt_lt a b ≡ false → opt_lt b c ≡ false → opt_lt a c ≡ false
opt_le_trans none none c h k = k
opt_le_trans none (some b) c h k = cc
opt_le_trans (some a) none none h k = refl
opt_le_trans (some a) none (some c) h k = cc
opt_le_trans (some a) (some b) none h k = refl
opt_le_trans (some a) (some b) (some c) h k = ground arith

opt_lt_asymm : (a b : Option ℕ) → opt_lt a b ≡ true → opt_lt b a ≡ false
opt_lt_asymm none none h = refl
opt_lt_asymm none (some b) h = refl
opt_lt_asymm (some a) none h = cc
opt_lt_asymm (some a) (some b) h = ground arith

opt_lt_irrefl : (a : Option ℕ) → opt_lt a a ≡ false
opt_lt_irrefl none = refl
opt_lt_irrefl (some a) = ground arith

abbrev pub HasPoints : StorageArea → Type 0
HasPoints sa = sa.access_points ≢ []

module _ (path : Text) where
  -- No access point of the list matches more of the path.
  abbrev pub Covers : Option ℕ → List Text → Type 0
  Covers size = All (λ q. opt_lt size (prefix_match path q) ≡ false)

  Covers-mono :
      (a b : Option ℕ) (aps : List Text) → opt_lt a b ≡ false → Covers b aps → Covers a aps
  Covers-mono a b [] h c = tt
  Covers-mono a b (q ∷ aps) h c = (opt_le_trans a b _ h c.0, Covers-mono a b aps h c.1)

  max_ap_above :
      (best : Text) (aps : List Text)
      → opt_lt (prefix_match path (max_ap path best aps)) (prefix_match path best) ≡ false
  unfolding max_ap
  max_ap_above best [] = opt_lt_irrefl (prefix_match path best)
  max_ap_above best (q ∷ aps) =
      elim (Bool-cases (opt_lt (prefix_match path best) (prefix_match path q))) [
        | inl e ↦ rw e (
            opt_le_trans (prefix_match path (max_ap path q aps)) (prefix_match path q)
              (prefix_match path best) (max_ap_above q aps)
              (opt_lt_asymm (prefix_match path best) (prefix_match path q) e))
        | inr e ↦ rw e (max_ap_above best aps)
      ]

  max_ap-cons :
      (best q : Text) (aps : List Text)
      → max_ap path best (q ∷ aps)
        ≡ max_ap path
            (if opt_lt (prefix_match path best) (prefix_match path q) then q else best)
            aps
  unfolding max_ap
  max_ap-cons best q aps = refl

  max_ap-Covers :
      (best : Text) (aps : List Text) → Covers (prefix_match path (max_ap path best aps)) aps
  max_ap-Covers best [] = tt
  max_ap-Covers best (q ∷ aps) =
      subst (λ r. Covers (prefix_match path r) (q ∷ aps)) (sym (max_ap-cons best q aps))
        (next (λ r. max_ap-Covers r aps) (opt_lt (prefix_match path best) (prefix_match path q))
          refl)
    where
      next :
          ((r : Text) → Covers (prefix_match path (max_ap path r aps)) aps)
          → (b : Bool) → opt_lt (prefix_match path best) (prefix_match path q) ≡ b
          → Covers (prefix_match path (max_ap path (if b then q else best) aps)) (q ∷ aps)
      next ih true e = (max_ap_above q aps, ih q)
      next ih false e = (
        opt_le_trans (prefix_match path (max_ap path best aps)) (prefix_match path best)
            (prefix_match path q) (max_ap_above best aps) e,
        ih best,
      )

  max_ap-In : (best : Text) (aps : List Text) → In (max_ap path best aps) (best ∷ aps)
  unfolding max_ap
  max_ap-In best [] = inl refl
  max_ap-In best (q ∷ aps) = ground (arith, max_ap-In q aps, max_ap-In best aps)

  -- A match found among the areas.
  abbrev pub Found : List StorageArea → BestMatch → Type 0
  Found sas bm =
      In bm.sa sas
      × In bm.path bm.sa.access_points
      × (prefix_match path bm.path ≡ some bm.match_size)

  abbrev pub FoundOpt : List StorageArea → Option BestMatch → Type 0
  FoundOpt sas none = Unit
  FoundOpt sas (some bm) = Found sas bm

  as_match-Found :
      (sas : List StorageArea) (sa : StorageArea) (q : Text)
      → In sa sas
      → In q sa.access_points
      → FoundOpt sas (as_match sa q (prefix_match path q))
  unfolding as_match
  as_match-Found sas sa q m k = go (prefix_match path q) refl
    where
      go : (o : Option ℕ) → prefix_match path q ≡ o → FoundOpt sas (as_match sa q o)
      go none e = tt
      go (some n) e = (m, k, e)

  size_of-as_match : (sa : StorageArea) (q : Text) (o : Option ℕ) → size_of (as_match sa q o) ≡ o
  unfolding as_match
  size_of-as_match sa q none = refl
  size_of-as_match sa q (some n) = refl

  -- The best access point of a storage area that has one.
  best_of_aps_lem :
      (sas : List StorageArea) (sa : StorageArea) (q : Text) (aps : List Text)
      → In sa sas
      → sa.access_points ≡ q ∷ aps
      → (m : Option BestMatch) × (best_of_aps path sa (q ∷ aps) ≡ some m)
        × FoundOpt sas m
        × Covers (size_of m) (q ∷ aps)
  unfolding best_of_aps
  best_of_aps_lem sas sa q aps m e = (
    as_match sa (max_ap path q aps) (prefix_match path (max_ap path q aps)),
    refl,
    as_match-Found sas sa (max_ap path q aps) m
        (subst (In (max_ap path q aps)) (sym e) (max_ap-In q aps)),
    subst (λ o. Covers o (q ∷ aps))
        (sym (size_of-as_match sa (max_ap path q aps) (prefix_match path (max_ap path q aps))))
        (max_ap_above q aps, max_ap-Covers q aps),
  )

  -- No access point of the areas matches more of the path.
  abbrev pub CoversAll : Option ℕ → List StorageArea → Type 0
  CoversAll size = All (λ sa. Covers size sa.access_points)

  CoversAll-mono :
      (a b : Option ℕ) (sas : List StorageArea)
      → opt_lt a b ≡ false
      → CoversAll b sas
      → CoversAll a sas
  CoversAll-mono a b [] h c = tt
  CoversAll-mono a b (sa ∷ sas) h c =
      (Covers-mono a b sa.access_points h c.0, CoversAll-mono a b sas h c.1)

  max_match_above :
      (a b : Option BestMatch)
      → (opt_lt (size_of (max_match a b)) (size_of a) ≡ false)
        × (opt_lt (size_of (max_match a b)) (size_of b) ≡ false)
  max_match_above a b = go (opt_lt (size_of a) (size_of b)) refl
    where
      go :
          (c : Bool)
          → opt_lt (size_of a) (size_of b) ≡ c
          → (opt_lt (size_of (if c then b else a)) (size_of a) ≡ false)
            × (opt_lt (size_of (if c then b else a)) (size_of b) ≡ false)
      go true e = (opt_lt_asymm (size_of a) (size_of b) e, opt_lt_irrefl (size_of b))
      go false e = (opt_lt_irrefl (size_of a), e)

  max_match-Found :
      (sas : List StorageArea) (a b : Option BestMatch)
      → FoundOpt sas a
      → FoundOpt sas b
      → FoundOpt sas (max_match a b)
  max_match-Found sas a b f g = go (opt_lt (size_of a) (size_of b))
    where
      go : (c : Bool) → FoundOpt sas (if c then b else a)
      go true = g
      go false = f

  -- The outcome of the reduction from a match so far.
  abbrev Reduced : List StorageArea → Option BestMatch → List StorageArea → Type 0
  Reduced sas best todo =
      (m : Option BestMatch) × (best_match path (some best) todo ≡ some m)
      × FoundOpt sas m
      × CoversAll (size_of m) todo
      × (opt_lt (size_of m) (size_of best) ≡ false)

  pub best_match_lem :
      (sas : List StorageArea) (best : Option BestMatch) (todo : List StorageArea)
      → ((sa : StorageArea) → In sa todo → In sa sas)
      → All HasPoints todo
      → FoundOpt sas best
      → Reduced sas best todo
  unfolding best_match reduce_step
  best_match_lem sas best [] sub pts f = (best, refl, f, tt, opt_lt_irrefl (size_of best))
  best_match_lem sas best (sa ∷ todo) sub pts f =
      go sa.access_points refl (λ b g. best_match_lem sas b todo (λ x k. sub x (inr k)) pts.1 g)
    where
      go :
          (aps : List Text)
          → sa.access_points ≡ aps
          → ((b : Option BestMatch) → FoundOpt sas b → Reduced sas b todo)
          → Reduced sas best (sa ∷ todo)
      go [] e ih = absurd (pts.0 e)
      go (q ∷ aps) e ih =
          let (m, me, mf, mc) = best_of_aps_lem sas sa q aps (sub sa (inl refl)) e in
          let (r, re, rf, rc, ra) = ih (max_match best m) (max_match-Found sas best m f mf) in
          let above = max_match_above best m in
          (
            r,
            subst (λ b. best_match path (reduce_step best b) todo ≡ some r)
                (sym (ap (best_of_aps path sa) e ∙ me)) re,
            rf,
            (
              subst (Covers (size_of r)) (sym e) (
                  Covers-mono (size_of r) (size_of m) (q ∷ aps)
                    (opt_le_trans (size_of r) (size_of (max_match best m)) (size_of m) ra above.1)
                    mc),
              rc,
            ),
            opt_le_trans (size_of r) (size_of (max_match best m)) (size_of best) ra above.0,
          )
