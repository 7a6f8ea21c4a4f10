-- ===== src/Stage/Timestamps.antt =====
-- update_timestamps against the comment above it: the start of a stage is the least start of the files
-- that are not SUBMITTED, and its end, once all files are in a final state, the greatest end.
use storm_tape.Prelude.{
  ◌≤◌, ◌≡◌, ◌≢◌, refl, inl, inr, Bool, true, false, some, List, [], ◌∷◌, All, All-map, In, arith,
  if◌then◌else◌,
}
use storm_tape.Model.{TimePoint, File, is_final}
use storm_tape.Algorithm.{min_element, max_element, from_partition_point}
use storm_tape.Algorithm.Sorting.{IsSorted}
use storm_tape.Stage.{by_state, is_submitted, back, started_lt, finished_lt}

-- A time among those of the files, and no greater than any of them.
abbrev pub IsLeast : (File → TimePoint) → File → List File → Type 0
IsLeast key m fs = In m fs × All (λ g. key m ≤ key g) fs

abbrev pub IsGreatest : (File → TimePoint) → File → List File → Type 0
IsGreatest key m fs = In m fs × All (λ g. key g ≤ key m) fs

In-second : (x f g : File) (fs : List File) → In x (f ∷ fs) → In x (f ∷ g ∷ fs)
In-second x f g fs (inl e) = inl e
In-second x f g fs (inr m) = inr (inr m)

pub min_element_lem :
    (f : File) (fs : List File) → IsLeast (λ g. g.started_at) (min_element started_lt f fs) (f ∷ fs)
unfolding min_element
min_element_lem f [] = (inl refl, (omega arith, tt))
min_element_lem f (g ∷ fs) = go (started_lt g f) refl (λ h. min_element_lem h fs)
  where
    go :
        (b : Bool)
        → started_lt g f ≡ b
        → ((h : File) → IsLeast (λ g. g.started_at) (min_element started_lt h fs) (h ∷ fs))
        → IsLeast (λ g. g.started_at) (min_element started_lt (if b then g else f) fs) (f ∷ g ∷ fs)
    go true e ih = let (m, (le, les)) = ih g in (inr m, (ground (arith, le), (le, les)))
    go false e ih =
        let (m, (le, les)) = ih f in (In-second _ f g fs m, (le, (ground (arith, le), les)))

pub max_element_lem :
    (f : File) (fs : List File)
    → IsGreatest (λ g. g.finished_at) (max_element finished_lt f fs) (f ∷ fs)
unfolding max_element
max_element_lem f [] = (inl refl, (omega arith, tt))
max_element_lem f (g ∷ fs) = go (finished_lt f g) refl (λ h. max_element_lem h fs)
  where
    go :
        (b : Bool)
        → finished_lt f g ≡ b
        → ((h : File) → IsGreatest (λ g. g.finished_at) (max_element finished_lt h fs) (h ∷ fs))
        → IsGreatest
            (λ g. g.finished_at)
            (max_element finished_lt (if b then g else f) fs)
            (f ∷ g ∷ fs)
    go true e ih = let (m, (le, les)) = ih g in (inr m, (ground (arith, le), (le, les)))
    go false e ih =
        let (m, (le, les)) = ih f in (In-second _ f g fs m, (le, (ground (arith, le), les)))

abbrev pub IsBegun : File → Type 0
IsBegun f = is_submitted f.state ≡ false

abbrev pub IsFinal : File → Type 0
IsFinal f = is_final f.state ≡ true

-- The part of sorted files from the partition point is what has left SUBMITTED.
IsBegun-above :
    (f : File) (fs : List File) → IsBegun f → All (λ g. by_state g f ≡ false) fs → All IsBegun fs
IsBegun-above f [] h a = tt
IsBegun-above f (g ∷ fs) h a = (ground arith, IsBegun-above f fs h a.1)

pub IsFinal-above :
    (f : File) (fs : List File) → IsFinal f → All (λ g. by_state g f ≡ false) fs → All IsFinal fs
IsFinal-above f [] h a = tt
IsFinal-above f (g ∷ fs) h a = (ground arith, IsFinal-above f fs h a.1)

abbrev pub begun : List File → List File
begun = from_partition_point (λ f. is_submitted f.state)

pub begun-In : (f : File) (fs : List File) → In f (begun fs) → In f fs
unfolding from_partition_point
begun-In f (g ∷ fs) m = go (is_submitted g.state) (begun-In f fs) m
  where
    go :
        (b : Bool)
        → (In f (begun fs) → In f fs)
        → In f (if b then begun fs else g ∷ fs)
        → In f (g ∷ fs)
    go true ih m = inr (ih m)
    go false ih m = m
begun-In f [] m = m

pub begun-All : (fs : List File) → IsSorted by_state fs → All IsBegun (begun fs)
unfolding from_partition_point
begun-All [] s = tt
begun-All (f ∷ fs) s = go (is_submitted f.state) refl (begun-All fs s.1)
  where
    go :
        (b : Bool)
        → is_submitted f.state ≡ b
        → All IsBegun (begun fs)
        → All IsBegun (if b then begun fs else f ∷ fs)
    go true e ih = ih
    go false e ih = (e, IsBegun-above f fs e s.0)

-- What holds of the part holds of every file that has left SUBMITTED.
pub begun_back :
    (P : File → Type 0) (fs : List File) → All P (begun fs) → All (λ g. IsBegun g → P g) fs
unfolding from_partition_point
begun_back P [] h = tt
begun_back P (f ∷ fs) h = go (is_submitted f.state) refl (begun_back P fs) h
  where
    go :
        (b : Bool)
        → is_submitted f.state ≡ b
        → (All P (begun fs) → All (λ g. IsBegun g → P g) fs)
        → All P (if b then begun fs else f ∷ fs)
        → All (λ g. IsBegun g → P g) (f ∷ fs)
    go true e ih h = (λ k. cc, ih h)
    go false e ih h = (λ k. h.0, All-map P (λ g. IsBegun g → P g) fs (λ g p k. p) h.1)

pub back-begun : (fs : List File) (last : File) → back fs ≡ some last → IsBegun last → begun fs ≢ []
unfolding back from_partition_point
back-begun [] last e h = cc
back-begun (f ∷ []) last e h = ground arith
back-begun (f ∷ g ∷ fs) last e h = ground (arith, back-begun (g ∷ fs) last e h)

pub back_submitted :
    (fs : List File) (last : File)
    → IsSorted by_state fs
    → back fs ≡ some last
    → is_submitted last.state ≡ true
    → All (λ f. is_submitted f.state ≡ true) fs
unfolding back
back_submitted [] last s e h = tt
back_submitted (f ∷ []) last s e h = (ground arith, tt)
back_submitted (f ∷ g ∷ fs) last s e h =
    let rest = back_submitted (g ∷ fs) last s.1 e h in (ground (arith, s.0.0, rest.0), rest)
