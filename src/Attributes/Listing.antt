-- ===== src/Attributes/Listing.antt =====
-- list_xattr_names, whose two calls of listxattr may see two lists.
use storm_tape.Prelude.{
  ℕ, zero, suc, ◌-◌, ◌≤◌, ◌<◌, ◌≡◌, ◌≢◌, refl, sym, ap, ◌∙◌, inl, inr, Bool, true, false, not, none,
  some, List, [], ◌∷◌, ◌++◌, Text, arith, eqb, leb, if◌then◌else◌, length, All, Bool-cases, keep,
  append-nil, append_assoc,
}
use storm_tape.Model.{PhysicalPath}
use storm_tape.Host.{ret, errno}
use storm_tape.Attributes.{
  Calls, XAttrName, Coded, returns, erange, is_empty, names_of, list_read, list_xattr_names,
}
use storm_tape.Attributes.Reading.{zeros, suc_nonzero, overwrite-zeros}

abbrev pub flush : Text → List Text
flush [] = []
flush (c ∷ cs) = (c ∷ cs) ∷ []

-- The longest runs of characters that are not zero, after some that were read.
unfoldable pub runs : Text → Text → List Text
runs cur [] = flush cur
runs cur (c ∷ cs) = if eqb c 0 then flush cur ++ runs [] cs else runs (cur ++ c ∷ []) cs

abbrev pub is_some_text : Text → Bool
is_some_text t = not (eqb (length t) 0)

-- boost::split with token_compress_on: but for empty texts, the runs between the separators.
abbrev pub IsSplit : (Text → List Text) → Type 0
IsSplit split = (l : Text) → keep is_some_text (split l) ≡ runs [] l

-- A list of names as listxattr writes it: each is followed by a zero.
abbrev pub joined : List Text → Text
joined [] = []
joined (t ∷ ts) = t ++ (0 ∷ joined ts)

abbrev pub IsProper : Text → Type 0
IsProper t = (t ≢ []) × All (λ c. eqb c 0 ≡ false) t

-- What the manual page of listxattr says, for a path that can be read.
pub record DocumentedList {F : Type 0} (C : Calls F) : Type 0 where
  pub names : F → PhysicalPath → List Text
  pub proper : (s : F) (p : PhysicalPath) → All IsProper (names s p)
  pub size : (s : F) (p : PhysicalPath) → C.listxattr p 0 s ≡ ret (length (joined (names s p)), [])
  pub fits :
      (s : F) (p : PhysicalPath) (k : ℕ)
      → 0 < k
      → length (joined (names s p)) ≤ k
      → C.listxattr p k s ≡ ret (length (joined (names s p)), joined (names s p))
  pub short :
      (s : F) (p : PhysicalPath) (k : ℕ)
      → 0 < k
      → k < length (joined (names s p))
      → C.listxattr p k s ≡ errno erange

runs-run :
    (t cur rest : Text)
    → All (λ c. eqb c 0 ≡ false) t
    → runs cur (t ++ (0 ∷ rest)) ≡ flush (cur ++ t) ++ runs [] rest
unfolding runs
runs-run [] cur rest h = ap (λ u. flush u ++ runs [] rest) (sym (append-nil cur))
runs-run (c ∷ t) cur rest h = rw h.0 (
    runs-run t (cur ++ c ∷ []) rest h.1
    ∙ ap (λ u. flush u ++ runs [] rest) (append_assoc cur (c ∷ []) t))

runs-zeros : (k : ℕ) → runs [] (zeros k) ≡ []
unfolding runs
runs-zeros zero = refl
runs-zeros (suc k) = runs-zeros k

flush-some : (t : Text) (ts : List Text) → t ≢ [] → flush t ++ ts ≡ t ∷ ts
flush-some [] ts h = absurd (h refl)
flush-some (c ∷ t) ts h = refl

runs-joined : (ts : List Text) (k : ℕ) → All IsProper ts → runs [] (joined ts ++ zeros k) ≡ ts
runs-joined [] k h = runs-zeros k
runs-joined (t ∷ ts) k h =
    ap (runs []) (append_assoc t (0 ∷ joined ts) (zeros k))
    ∙ runs-run t [] (joined ts ++ zeros k) h.0.1
    ∙ ap (λ us. flush t ++ us) (runs-joined ts k h.1)
    ∙ flush-some t ts h.0.0

names_first :
    (b : Bool) (t : Text) (ts : List Text)
    → (if not b then record { name = t } ∷ names_of ts else names_of ts)
      ≡ names_of (if not b then t ∷ ts else ts)
unfolding names_of
names_first true t ts = refl
names_first false t ts = refl

-- Names that are not empty.
keep-names_of :
    (ts : List Text) → keep (λ n. not (is_empty n)) (names_of ts) ≡ names_of (keep is_some_text ts)
unfolding names_of
keep-names_of [] = refl
keep-names_of (t ∷ ts) =
    ap (λ ns. if not (eqb (length t) 0) then record { name = t } ∷ ns else ns) (keep-names_of ts)
    ∙ names_first (eqb (length t) 0) t (keep is_some_text ts)

abbrev pub listing : List Text → List Text → Coded (List XAttrName)
listing before after =
    if eqb (length (joined before)) 0
    then returns (none, [])
    else if leb (length (joined after)) (length (joined before))
    then returns (none, names_of after)
    else returns (some erange, [])

module _ {F : Type 0} (C : Calls F) (D : DocumentedList C) (split : Text → List Text) where
  listed :
      (ts : List Text) (k : ℕ)
      → IsSplit split
      → All IsProper ts
      → keep (λ n. not (is_empty n)) (names_of (split (joined ts ++ zeros k))) ≡ names_of ts
  listed ts k is_split h =
      keep-names_of (split (joined ts ++ zeros k))
      ∙ ap names_of (is_split (joined ts ++ zeros k) ∙ runs-joined ts k h)

  list_read-reads :
      (p : PhysicalPath) (k : ℕ) (s : F)
      → IsSplit split
      → (list_read C split (C.listxattr p k s) k s).0 ≡ (
          if eqb k 0
          then returns (none, [])
          else if leb (length (joined (D.names s p))) k
          then returns (none, names_of (D.names s p))
          else returns (some erange, []))
  unfolding list_read names_of runs
  list_read-reads p zero s is_split =
      rw (D.size s p)
        (ap (λ ns. returns (none, ns)) (keep-names_of (split []) ∙ ap names_of (is_split [])))
  list_read-reads p (suc k) s is_split =
      elim (Bool-cases (leb (length (joined (D.names s p))) (suc k))) [
        | inl fits ↦
            rw (D.fits s p (suc k) (omega arith) (ground arith), fits, suc_nonzero k)
              (ap (λ ns. returns (none, ns))
                (ap (λ l. keep (λ n. not (is_empty n)) (names_of (split l)))
                    (overwrite-zeros (joined (D.names s p)) (suc k) (ground arith))
                  ∙ listed (D.names s p) (suc k - length (joined (D.names s p))) is_split
                      (D.proper s p)))
        | inr short ↦ rw (D.short s p (suc k) (omega arith) (ground arith), short, suc_nonzero k)
      ]

  -- list_xattr_names, of a file whose attributes can be read, returns all the names, in the order and
  -- the spelling in which listxattr writes them, if they are as many bytes at its second call as at its
  -- first, or fewer; it returns no names if there were none at the first; and otherwise it reports
  -- ERANGE. Other programs may change the names between the calls.
  pub list_xattr_names-reads :
      (p : PhysicalPath) (s : F)
      → IsSplit split
      → (list_xattr_names C split p s).0 ≡ listing (D.names s p) (D.names (C.others s) p)
  unfolding list_xattr_names
  list_xattr_names-reads p s is_split =
      rw (D.size s p) (list_read-reads p (length (joined (D.names s p))) (C.others s) is_split)
