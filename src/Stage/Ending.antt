-- ===== src/Stage/Ending.antt =====
-- The second step of update_timestamps: the end of a stage.
use storm_tape.Prelude.{
  ◌≤◌, ◌≡◌, ◌≢◌, refl, sym, ap, subst, ◌∙◌, inl, inr, Bool, true, false, some, List, [], ◌∷◌, All,
  In, arith, eqb, Bool-cases,
}
use storm_tape.Model.{TimePoint, File, is_final, StageRequest}
use storm_tape.Algorithm.{max_element}
use storm_tape.Algorithm.Sorting.{IsSorted}
use storm_tape.Stage.{by_state, front, finished_lt, last_finished, complete_from, update_completed}
use storm_tape.Stage.Timestamps.{IsFinal, max_element_lem, IsFinal-above}

-- The end of a stage: it stays once it is set; otherwise it is the greatest end of its files, if all are final.
pub data IsEnd (files : List File) (old new : TimePoint) : Type 0 where
  kept : old ≢ 0 → new ≡ old → IsEnd files old new
  not_yet :
      (f : File) → old ≡ 0 → In f files → is_final f.state ≡ false → new ≡ 0 → IsEnd files old new
  greatest :
      (f : File)
      → old ≡ 0
      → All IsFinal files
      → In f files
      → new ≡ f.finished_at
      → All (λ g. g.finished_at ≤ new) files
      → IsEnd files old new

last_finished_lem :
    (r : StageRequest) (first : File) (rest : List File)
    → r.files ≡ first ∷ rest
    → IsSorted by_state r.files
    → IsFinal first
    → r.completed_at ≡ 0
    → (t : TimePoint) × (last_finished r.files ≡ some t) × IsEnd r.files r.completed_at t
unfolding last_finished
last_finished_lem r first rest e s f z =
    let m = max_element finished_lt first rest in
    let (mem, le) = max_element_lem first rest in
    (
      m.finished_at,
      ap last_finished e,
      greatest m z
          (subst (All IsFinal) (sym e)
            (f, IsFinal-above first rest f (subst (IsSorted by_state) e s).0))
          (subst (In m) (sym e) mem) refl
          (subst (All (λ g. g.finished_at ≤ m.finished_at)) (sym e) le),
    )

-- The outcome of the second step.
abbrev pub Completed : StageRequest → Bool → StageRequest → Bool → Type 0
Completed r u s v =
    (s.files ≡ r.files)
    × (s.created_at ≡ r.created_at)
    × (s.started_at ≡ r.started_at)
    × IsEnd r.files r.completed_at s.completed_at
    × (v ≡ false → (s ≡ r) × (u ≡ false))

complete_lem :
    (r : StageRequest) (u : Bool) (first : File) (rest : List File)
    → r.files ≡ first ∷ rest
    → IsSorted by_state r.files
    → r.completed_at ≡ 0
    → (s : StageRequest) × (v : Bool) × (complete_from r u (some first) ≡ some (s, v))
      × Completed r u s v
unfolding complete_from
complete_lem r u first rest e s z = elim (Bool-cases (is_final first.state)) [
  | inr open_ ↦ (
    r,
    u,
    rw open_,
    (
      refl,
      refl,
      refl,
      not_yet first z (subst (In first) (sym e) (inl refl)) open_ z,
      λ h. (refl, h),
    ),
  )
  | inl final ↦
      let (t, te, end) = last_finished_lem r first rest e s final z in
      (record r { completed_at = t }, true, rw (final, te), (refl, refl, refl, end, λ h. cc))
]

pub update_completed_lem :
    (r : StageRequest) (u : Bool)
    → IsSorted by_state r.files
    → r.files ≢ []
    → (s : StageRequest) × (v : Bool) × (update_completed (some (r, u)) ≡ some (s, v))
      × Completed r u s v
unfolding update_completed front
update_completed_lem r u s n = elim (Bool-cases (eqb r.completed_at 0)) [
  | inr set ↦ (r, u, rw set, (refl, refl, refl, kept (λ e. ground arith) refl, λ h. (refl, h)))
  | inl unset ↦ go unset r.files refl
]
  where
    go :
        eqb r.completed_at 0 ≡ true
        → (fs : List File) → r.files ≡ fs
        → (s : StageRequest) × (v : Bool) × (update_completed (some (r, u)) ≡ some (s, v))
          × Completed r u s v
    go unset [] e = absurd (n e)
    go unset (first ∷ rest) e =
        let (s', v, se, c) = complete_lem r u first rest e s (ground arith) in
        (s', v, rw unset (ap (λ fs. complete_from r u (front fs)) e ∙ se), c)
