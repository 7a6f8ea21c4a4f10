-- ===== src/Attributes/RoundTrip.antt =====
-- What get_xattr and has_xattr say after set_xattr, create_xattr and remove_xattr.
use storm_tape.Prelude.{
  ℕ, ◌<◌, ◌≡◌, ◌⊎◌, refl, ap, ◌∙◌, inl, inr, Bool, true, false, none, some, [], Text, arith, leb,
  append-nil, ◌++◌, ◌-◌, ◌∷◌, Bool-cases, length, if◌then◌else◌,
}
use storm_tape.Model.{PhysicalPath}
use storm_tape.Host.{SysCall, ret, errno, enodata}
use storm_tape.Attributes.{
  Calls, XAttrName, XAttrValue, returns, throws, valid, eexist, get_xattr, get_xattr_or_throw,
  set_xattr, has_xattr, create_xattr, remove_xattr, Coded, aborts, code_of, create_code, or_throw,
}
use storm_tape.Attributes.Kernel.{Documented, IsAlone}
use storm_tape.Attributes.Reading.{
  zeros, suc_nonzero, leb_refl, reading, read_again, get_xattr-reads,
}

none_left : (n : ℕ) → n - n ≡ 0
none_left n = omega arith

-- A value that does not change is read, whatever its length.
reading-same :
    (sso : ℕ) (v : Text)
    → reading sso (some v) (some v) (some v) ≡ returns (none, record { value = v })
reading-same sso [] = ground arith
reading-same sso (c ∷ v) = elim (Bool-cases (leb (length (c ∷ v)) sso)) [
  | inl fits ↦ rw fits
  | inr long ↦ rw (long, again)
]
  where
    again : read_again (some (c ∷ v)) (some (c ∷ v)) ≡ returns (none, record { value = c ∷ v })
    again =
        rw (suc_nonzero (length v), leb_refl (length (c ∷ v)))
          (ap (λ t. returns (none, record { value = t }))
            (ap (λ k. (c ∷ v) ++ zeros k) (none_left (length (c ∷ v))) ∙ append-nil (c ∷ v)))

abbrev Ends : Type 0 → Type 0
Ends F = Coded Unit × F

-- A checked call that succeeds: the name is valid, and the system call has succeeded.
asserted_ok :
    {F : Type 0} (b : Bool) (r : SysCall Unit × F) (s s' : F)
    → ◌≡◌ {A = Ends F}
        (if b then (returns (code_of r.0, tt), r.1) else (aborts, s))
        (returns (none, tt), s')
    → (b ≡ true) × (r ≡ (ret tt, s'))
asserted_ok true (ret u, t) s s' e = (refl, ap (λ x. (ret tt, x.1)) e)
asserted_ok true (errno k, t) s s' e = absurd (ground arith)
asserted_ok false r s s' e = absurd (ground arith)

create_ok :
    {F : Type 0} (b : Bool) (r : SysCall Unit × F) (s s' : F)
    → ◌≡◌ {A = Ends F}
        (if b then (returns (create_code r.0, tt), r.1) else (aborts, s))
        (returns (none, tt), s')
    → (b ≡ true) × ((r ≡ (ret tt, s')) ⊎ (r ≡ (errno eexist, s')))
create_ok true (ret u, t) s s' e = (refl, inl (ap (λ x. (ret tt, x.1)) e))
create_ok true (errno k, t) s s' e = (refl, inr (ground arith))
create_ok false r s s' e = absurd (ground arith)

module _ {F : Type 0} (C : Calls F) (D : Documented C) where
  has_xattr-some :
      (p : PhysicalPath) (n : XAttrName) (s : F) (v : Text)
      → valid n ≡ true
      → D.attribute s p n.name ≡ some v
      → (has_xattr C p n s).0 ≡ returns (none, true)
  unfolding has_xattr
  has_xattr-some p n s v h e = rw (h, D.size s p n.name v e)

  set-stored :
      (p : PhysicalPath) (n : XAttrName) (v : XAttrValue) (s s' : F)
      → set_xattr C p n v s ≡ (returns (none, tt), s')
      → (valid n ≡ true) × (D.attribute s' p n.name ≡ some v.value)
  unfolding set_xattr
  set-stored p n v s s' e =
      let (ok, called) = asserted_ok (valid n) (C.setxattr p n.name v.value false s) s s' e in
      (ok, D.sets s s' p n.name v.value false called)

  -- After a call of set_xattr that clears the error code, on a file whose attributes can be read and
  -- that no other program changes, get_xattr returns the value, however long it is, and has_xattr
  -- returns true; neither reports an error.
  pub get_xattr-set_xattr :
      (sso : ℕ) (p : PhysicalPath) (n : XAttrName) (v : XAttrValue) (s s' : F)
      → 0 < sso
      → IsAlone C D p n.name
      → set_xattr C p n v s ≡ (returns (none, tt), s')
      → ((get_xattr C sso p n s').0 ≡ returns (none, v))
        × ((has_xattr C p n s').0 ≡ returns (none, true))
  get_xattr-set_xattr sso p n v s s' h alone e =
      let (ok, stored) = set-stored p n v s s' e in
      let later = alone s' ∙ stored in
      (
        get_xattr-reads C D sso p n s' h ok
            ∙ rw (stored, later, alone (C.others s') ∙ later) (reading-same sso v.value),
        has_xattr-some p n s' v.value ok stored,
      )

  created :
      (p : PhysicalPath) (n : XAttrName) (s s' : F)
      → create_xattr C p n s ≡ (returns (none, tt), s')
      → (valid n ≡ true) × ((v : Text) × (D.attribute s' p n.name ≡ some v))
  unfolding create_xattr
  created p n s s' e =
      let called = create_ok (valid n) (C.setxattr p n.name [] true s) s s' e in
      (
        called.0,
        elim called.1 [
          | inl set ↦ ([], D.sets s s' p n.name [] true set)
          | inr old ↦ D.exists s s' p n.name [] true old
        ],
      )

  removed :
      (p : PhysicalPath) (n : XAttrName) (s s' : F)
      → remove_xattr C p n s ≡ (returns (none, tt), s')
      → (valid n ≡ true) × (D.attribute s' p n.name ≡ none)
  unfolding remove_xattr
  removed p n s s' e =
      let (ok, called) = asserted_ok (valid n) (C.removexattr p n.name s) s s' e in
      (ok, D.removes s s' p n.name called)

  has_xattr-none :
      (p : PhysicalPath) (n : XAttrName) (s : F)
      → valid n ≡ true
      → D.attribute s p n.name ≡ none
      → (has_xattr C p n s).0 ≡ returns (none, false)
  unfolding has_xattr
  has_xattr-none p n s h e = rw (h, D.missing s p n.name 0 e)

  get_xattr-none :
      (sso : ℕ) (p : PhysicalPath) (n : XAttrName) (s : F)
      → 0 < sso
      → valid n ≡ true
      → D.attribute s p n.name ≡ none
      → (get_xattr_or_throw C sso p n s).0 ≡ throws enodata
  unfolding get_xattr_or_throw
  get_xattr-none sso p n s h ok e =
      let read : (get_xattr C sso p n s).0 ≡ returns (some enodata, record { value = [] }) =
        get_xattr-reads C D sso p n s h ok ∙ rw e in
      ap or_throw read

  -- On a file whose attributes can be read: once create_xattr has cleared the error code, has_xattr
  -- returns true, whether the attribute was new or had been there; and once remove_xattr has cleared it,
  -- has_xattr returns false, and the get_xattr with no error code throws ENODATA.
  pub has_xattr-switches :
      (sso : ℕ) (p : PhysicalPath) (n : XAttrName) (s s' t t' : F)
      → 0 < sso
      → create_xattr C p n s ≡ (returns (none, tt), s')
      → remove_xattr C p n t ≡ (returns (none, tt), t')
      → ((has_xattr C p n s').0 ≡ returns (none, true))
        × ((has_xattr C p n t').0 ≡ returns (none, false))
        × ((get_xattr_or_throw C sso p n t').0 ≡ throws enodata)
  has_xattr-switches sso p n s s' t t' h e e' =
      let (ok, (v, is_there)) = created p n s s' e in
      let (_, gone) = removed p n t t' e' in
      (
        has_xattr-some p n s' v ok is_there,
        has_xattr-none p n t' ok gone,
        get_xattr-none sso p n t' h ok gone,
      )
