-- ===== src/Stage/Starting.antt =====
-- The first step of update_timestamps: the start of a stage.
use storm_tape.Prelude.{
  ◌≤◌, ◌≡◌, ◌≢◌, refl, sym, ap, subst, inl, inr, Bool, true, false, Option, none, some, List, [],
  ◌∷◌, All, In, All-In, arith, eqb, Bool-cases,
}
use storm_tape.Model.{TimePoint, File, StageRequest}
use storm_tape.Algorithm.{min_element}
use storm_tape.Algorithm.Sorting.{IsSorted}
use storm_tape.Stage.{
  by_state, is_submitted, back, started_lt, first_started, start_from, update_started,
}
use storm_tape.Stage.Timestamps.{
  IsBegun, min_element_lem, begun, begun-In, begun-All, begun_back, back-begun, back_submitted,
}

-- The start of a stage: it stays once it is set; otherwise it is the least start of the files that have
-- left SUBMITTED, if there is one.
pub data IsStart (files : List File) (old new : TimePoint) : Type 0 where
  kept : old ≢ 0 → new ≡ old → IsStart files old new
  not_yet : old ≡ 0 → All (λ f. is_submitted f.state ≡ true) files → new ≡ 0 → IsStart files old new
  least :
      (f : File)
      → old ≡ 0
      → In f files
      → IsBegun f
      → new ≡ f.started_at
      → All (λ g. IsBegun g → new ≤ g.started_at) files
      → IsStart files old new

first_started_lem :
    (r : StageRequest)
    → IsSorted by_state r.files
    → begun r.files ≢ []
    → r.started_at ≡ 0
    → (t : TimePoint) × (first_started (begun r.files) ≡ some t) × IsStart r.files r.started_at t
unfolding first_started
first_started_lem r s n z = go (begun r.files) refl
  where
    go :
        (fs : List File)
        → begun r.files ≡ fs
        → (t : TimePoint) × (first_started (begun r.files) ≡ some t)
          × IsStart r.files r.started_at t
    go [] e = absurd (n e)
    go (f ∷ fs) e =
        let m = min_element started_lt f fs in
        let (mem, le) = min_element_lem f fs in
        (
          m.started_at,
          ap first_started e,
          least m z (begun-In m r.files (subst (In m) (sym e) mem))
              (All-In IsBegun m (begun r.files) (begun-All r.files s) (subst (In m) (sym e) mem))
              refl
              (begun_back (λ g. m.started_at ≤ g.started_at) r.files
                (subst (All (λ g. m.started_at ≤ g.started_at)) (sym e) le)),
        )

-- The result of the first step: only the start changes, and the flag says whether it does.
abbrev pub Started : StageRequest → StageRequest → Bool → Type 0
Started r s u =
    (s.files ≡ r.files)
    × (s.created_at ≡ r.created_at)
    × (s.completed_at ≡ r.completed_at)
    × IsStart r.files r.started_at s.started_at
    × (u ≡ false → s ≡ r)

begin_lem :
    (r : StageRequest) (last : File)
    → IsSorted by_state r.files
    → back r.files ≡ some last
    → r.started_at ≡ 0
    → (s : StageRequest) × (u : Bool) × (start_from r (some last) ≡ some (s, u)) × Started r s u
unfolding start_from
begin_lem r last s e z = elim (Bool-cases (is_submitted last.state)) [
  | inl sub ↦ (
    r,
    false,
    rw sub,
    (refl, refl, refl, not_yet z (back_submitted r.files last s e sub) z, λ _. refl),
  )
  | inr left ↦
      let (t, te, start) = first_started_lem r s (back-begun r.files last e left) z in
      (record r { started_at = t }, true, rw (left, te), (refl, refl, refl, start, λ h. cc))
]

back-ne-none : (fs : List File) → fs ≢ [] → back fs ≢ none
unfolding back
back-ne-none [] n e = n refl
back-ne-none (f ∷ []) n e = cc
back-ne-none (f ∷ g ∷ fs) n e = back-ne-none (g ∷ fs) (λ h. cc) e

pub update_started_lem :
    (r : StageRequest)
    → IsSorted by_state r.files
    → r.files ≢ []
    → (s : StageRequest) × (u : Bool) × (update_started r ≡ some (s, u)) × Started r s u
unfolding update_started
update_started_lem r s n = elim (Bool-cases (eqb r.started_at 0)) [
  | inr set ↦ (r, false, rw set, (refl, refl, refl, kept (λ e. ground arith) refl, λ _. refl))
  | inl unset ↦ go unset (back r.files) refl
]
  where
    go :
        eqb r.started_at 0 ≡ true
        → (o : Option File) → back r.files ≡ o
        → (s : StageRequest) × (u : Bool) × (update_started r ≡ some (s, u)) × Started r s u
    go unset none e = absurd (back-ne-none r.files n e)
    go unset (some last) e = rw (unset, e) (begin_lem r last s e (ground arith))
