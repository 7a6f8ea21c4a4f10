-- ===== src/Attributes/Reading.antt =====
-- get_xattr, whose three calls of getxattr may see three values.
use storm_tape.Prelude.{
  ℕ, zero, suc, ◌-◌, ◌≤◌, ◌<◌, ◌≡◌, refl, ap, ◌∙◌, inl, inr, true, false, Option, none, some, [],
  ◌∷◌, ◌++◌, Text, arith, eqb, leb, if◌then◌else◌, length, Bool-cases,
}
use storm_tape.Model.{PhysicalPath}
use storm_tape.Host.{enodata}
use storm_tape.Attributes.{
  Calls, XAttrName, XAttrValue, Coded, returns, length_error, erange, valid, resize, overwrite,
  get_xattr, read_last, read_sized, read_first,
}
use storm_tape.Attributes.Kernel.{Documented}

-- A buffer of zeros.
abbrev pub zeros : ℕ → Text
zeros n = resize n []

zeros-resize : (a b : ℕ) → resize a (zeros b) ≡ zeros a
zeros-resize zero b = refl
zeros-resize (suc a) zero = refl
zeros-resize (suc a) (suc b) = ap (λ t. 0 ∷ t) (zeros-resize a b)

pub overwrite-zeros :
    (v : Text) (k : ℕ) → length v ≤ k → overwrite v (zeros k) ≡ v ++ zeros (k - length v)
overwrite-zeros [] k h = ap zeros (omega arith)
overwrite-zeros (c ∷ v) zero h = absurd (omega arith)
overwrite-zeros (c ∷ v) (suc k) h =
    ap (λ t. c ∷ t) (overwrite-zeros v k (omega arith) ∙ ap (λ m. v ++ zeros m) (omega arith))

resize-append : (v t : Text) → resize (length v) (v ++ t) ≡ v
resize-append [] t = refl
resize-append (c ∷ v) t = ap (λ u. c ∷ u) (resize-append v t)

pub suc_nonzero : (n : ℕ) → eqb (suc n) 0 ≡ false
suc_nonzero n = ground arith

pub leb_refl : (n : ℕ) → leb n n ≡ true
leb_refl n = ground arith

abbrev found : Text → Coded XAttrValue
found v = returns (none, record { value = v })

abbrev failed_with : ℕ → Coded XAttrValue
failed_with e = returns (some e, record { value = [] })

-- The end of get_xattr for an attribute that does not fit, by its values when its size is asked for and
-- when it is read.
abbrev pub read_again : Option Text → Option Text → Coded XAttrValue
read_again none u = length_error
read_again (some w) none = failed_with enodata
read_again (some w) (some u) =
    if eqb (length w) 0
    then found []
    else if leb (length u) (length w)
    then found (u ++ zeros (length w - length u))
    else failed_with erange

-- That of get_xattr, by the values that its three calls see.
abbrev pub reading : ℕ → Option Text → Option Text → Option Text → Coded XAttrValue
reading sso none w u = failed_with enodata
reading sso (some v) w u = if leb (length v) sso then found v else read_again w u

module _ {F : Type 0} (C : Calls F) (D : Documented C) where
  read_last-reads :
      (p : PhysicalPath) (n : XAttrName) (s s' : F) (w : Text) (o : Option Text)
      → D.attribute s p n.name ≡ o
      → (read_last C (C.getxattr p n.name (length w) s) (zeros (length w)) s').0
        ≡ read_again (some w) o
  unfolding read_last
  read_last-reads p n s s' w none e = rw (D.missing s p n.name (length w) e)
  read_last-reads p n s s' [] (some u) e = rw (D.size s p n.name u e)
  read_last-reads p n s s' (c ∷ w) (some u) e =
      elim (Bool-cases (leb (length u) (length (c ∷ w)))) [
        | inl fits ↦
            rw
              (
                D.fits s p n.name u (length (c ∷ w)) e (omega arith) (ground arith),
                fits,
                suc_nonzero (length w),
              )
              (ap found (overwrite-zeros u (length (c ∷ w)) (ground arith)))
        | inr short ↦ rw (
          D.short s p n.name u (length (c ∷ w)) e (omega arith) (ground arith),
          short,
          suc_nonzero (length w),
        )
      ]

  read_sized-reads :
      (p : PhysicalPath) (n : XAttrName) (sso : ℕ) (s : F) (o : Option Text)
      → D.attribute s p n.name ≡ o
      → (read_sized C p n sso (C.getxattr p n.name 0 s) s).0
        ≡ read_again o (D.attribute (C.others s) p n.name)
  unfolding read_sized
  read_sized-reads p n sso s none e = rw (D.missing s p n.name 0 e)
  read_sized-reads p n sso s (some w) e =
      rw (D.size s p n.name w e, zeros-resize (length w) sso)
        (read_last-reads p n (C.others s) (C.others s) w _ refl)

  -- get_xattr of a valid name, on a file whose attributes can be read, returns what its calls of
  -- getxattr see. If there is no such attribute it reports ENODATA, and a value that fits the text at
  -- hand is returned. For any other value its size is asked for and it is read again, and another
  -- program may have changed it before each of the two: if it is gone the first time, an exception
  -- leaves the function; if it is gone the second time, or has grown, an error is reported; and if it
  -- has shrunk, it is returned with zeros after its end.
  pub get_xattr-reads :
      (sso : ℕ) (p : PhysicalPath) (n : XAttrName) (s : F)
      → 0 < sso
      → valid n ≡ true
      → (get_xattr C sso p n s).0
        ≡ reading sso
            (D.attribute s p n.name)
            (D.attribute (C.others s) p n.name)
            (D.attribute (C.others (C.others s)) p n.name)
  unfolding get_xattr read_first
  get_xattr-reads sso p n s h v = rw v (go (D.attribute s p n.name) refl)
    where
      go :
          (o : Option Text)
          → D.attribute s p n.name ≡ o
          → (read_first C p n sso (C.getxattr p n.name sso s) s).0
            ≡ reading sso o
                (D.attribute (C.others s) p n.name)
                (D.attribute (C.others (C.others s)) p n.name)
      go none e = rw (D.missing s p n.name sso e)
      go (some w) e = elim (Bool-cases (leb (length w) sso)) [
        | inl fits ↦
            rw (D.fits s p n.name w sso e h (ground arith), fits)
              (ap found (
                ap (resize (length w)) (overwrite-zeros w sso (ground arith))
                ∙ resize-append w (zeros (sso - length w))))
        | inr short ↦
            rw (D.short s p n.name w sso e h (ground arith), short)
              (read_sized-reads p n sso (C.others s) _ refl)
      ]
