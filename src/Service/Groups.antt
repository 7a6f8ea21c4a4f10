-- ===== src/Service/Groups.antt =====
-- The four groups of take_over: every path is in one, what is to recall, and that the rows of each
-- group leave SUBMITTED.
use storm_tape.Prelude.{
  ◌≤◌, ◌≡◌, refl, ap, ◌⊎◌, inl, inr, Bool, true, false, not, List, [], ◌∷◌, map, arith, All, In,
  suc, length, keep, if◌then◌else◌, ==_iff,
}
use storm_tape.Model.{
  TimePoint, PhysicalPath, State, submitted, started, cancelled, failed, completed,
}
use storm_tape.Host.{SetCalls}
use storm_tape.Storage.{Storage, fresh, locality}
use storm_tape.Database.Session.{Tables, FileEntity}
use storm_tape.Database.Sql.{state_eq, physical_update}
use storm_tape.Database.Updates.{run_row, move_all}
use storm_tape.Service.{TapeService}
use storm_tape.Service.Recall.{
  PathLocality, Selection, only_on_tape, on_disk, paths_of, with_localities, recall_in_progress,
  select,
}

-- No row of the path is SUBMITTED.
abbrev pub HasLeft : PhysicalPath → Tables → Type 0
HasLeft p t = All (λ f. f.physical_path ≡ p → state_eq f.state submitted ≡ false) t.files

left_row :
    (p q : PhysicalPath) (s : State) (tp : TimePoint) (f : FileEntity)
    → state_eq s submitted ≡ false
    → (p ≡ q) ⊎ (f.physical_path ≡ p → state_eq f.state submitted ≡ false)
    → (run_row (physical_update q s tp) f).physical_path ≡ p
    → state_eq (run_row (physical_update q s tp) f).state submitted ≡ false
unfolding physical_update
left_row p q submitted tp f n h e = absurd (ground arith)
left_row p q started tp f n (inl h) e = ground (arith, ==_iff f.physical_path q)
left_row p q started tp f n (inr h) e = ground (arith, h)
left_row p q cancelled tp f n (inl h) e = ground (arith, ==_iff f.physical_path q)
left_row p q cancelled tp f n (inr h) e = ground (arith, h)
left_row p q failed tp f n (inl h) e = ground (arith, ==_iff f.physical_path q)
left_row p q failed tp f n (inr h) e = ground (arith, h)
left_row p q completed tp f n (inl h) e = ground (arith, ==_iff f.physical_path q)
left_row p q completed tp f n (inr h) e = ground (arith, h)

left_rows :
    (p q : PhysicalPath) (s : State) (tp : TimePoint) (fs : List FileEntity)
    → state_eq s submitted ≡ false
    → (p ≡ q) ⊎ All (λ f. f.physical_path ≡ p → state_eq f.state submitted ≡ false) fs
    → All
        (λ f. f.physical_path ≡ p → state_eq f.state submitted ≡ false)
        (map (run_row (physical_update q s tp)) fs)
left_rows p q s tp [] n h = tt
left_rows p q s tp (f ∷ fs) n (inl h) =
    (left_row p q s tp f n (inl h), left_rows p q s tp fs n (inl h))
left_rows p q s tp (f ∷ fs) n (inr h) =
    (left_row p q s tp f n (inr h.0), left_rows p q s tp fs n (inr h.1))

pub move_all-HasLeft :
    (p : PhysicalPath) (ps : List PhysicalPath) (s : State) (tp : TimePoint) (t : Tables)
    → state_eq s submitted ≡ false
    → In p ps ⊎ HasLeft p t
    → HasLeft p (move_all ps s tp t)
move_all-HasLeft p [] s tp t n (inl m) = absurd m
move_all-HasLeft p [] s tp t n (inr h) = h
move_all-HasLeft p (q ∷ ps) s tp t n (inl (inl e)) =
    move_all-HasLeft p ps s tp _ n (inr (left_rows p q s tp t.files n (inl e)))
move_all-HasLeft p (q ∷ ps) s tp t n (inl (inr m)) = move_all-HasLeft p ps s tp _ n (inl m)
move_all-HasLeft p (q ∷ ps) s tp t n (inr h) =
    move_all-HasLeft p ps s tp _ n (inr (left_rows p q s tp t.files n (inr h)))

-- An element passes a filter or its complement.
keep_either :
    (q : PathLocality → Bool) (x : PathLocality) (xs : List PathLocality)
    → In x xs
    → In x (keep q xs) ⊎ In x (keep (λ y. not (q y)) xs)
keep_either q x [] m = absurd m
keep_either q x (y ∷ ys) m = go (q y) m (keep_either q x ys)
  where
    go :
        (b : Bool)
        → In x (y ∷ ys)
        → (In x ys → In x (keep q ys) ⊎ In x (keep (λ z. not (q z)) ys))
        → In x (if b then y ∷ keep q ys else keep q ys)
          ⊎ In x (if not b then y ∷ keep (λ z. not (q z)) ys else keep (λ z. not (q z)) ys)
    go true (inl e) f = inl (inl e)
    go true (inr m) f = elim (f m) [ inl k ↦ inl (inr k) | inr k ↦ inr k ]
    go false (inl e) f = inr (inl e)
    go false (inr m) f = elim (f m) [ inl k ↦ inl k | inr k ↦ inr (inr k) ]

In-paths_of : (x : PathLocality) (xs : List PathLocality) → In x xs → In x.0 (paths_of xs)
In-paths_of x [] m = absurd m
In-paths_of x (y ∷ ys) (inl e) = inl (ap (λ z. z.0) e)
In-paths_of x (y ∷ ys) (inr m) = inr (In-paths_of x ys m)

In-with_localities :
    (S : Storage) (p : PhysicalPath) (ps : List PhysicalPath)
    → In p ps
    → In (p, locality S p fresh) (with_localities S ps)
unfolding with_localities
In-with_localities S p [] m = absurd m
In-with_localities S p (q ∷ qs) (inl e) = inl (ap (λ q. (q, locality S q fresh)) e)
In-with_localities S p (q ∷ qs) (inr m) = inr (In-with_localities S p qs m)

length-paths_of : (xs : List PathLocality) → length (paths_of xs) ≡ length xs
length-paths_of [] = refl
length-paths_of (x ∷ xs) = ap suc (length-paths_of xs)

length-with_localities :
    (S : Storage) (ps : List PhysicalPath) → length (with_localities S ps) ≡ length ps
unfolding with_localities
length-with_localities S [] = refl
length-with_localities S (p ∷ ps) = ap suc (length-with_localities S ps)

length-keep : (q : PathLocality → Bool) (xs : List PathLocality) → length (keep q xs) ≤ length xs
length-keep q [] = omega arith
length-keep q (x ∷ xs) = ground (arith, length-keep q xs)

-- A path that is recalled: requested, on tape or lost, and with no recall running.
abbrev pub NeedsRecall : TapeService → SetCalls → List PhysicalPath → PhysicalPath → Type 0
NeedsRecall T calls ps p =
    In p ps
    × (only_on_tape (p, locality (T.storage calls) p fresh) ≡ true)
    × (recall_in_progress T calls p ≡ false)

abbrev pub taken_tables : Selection → TimePoint → Tables → Tables
taken_tables g now t = move_all g.need_recall started now (
    move_all g.the_rest failed now
      (move_all g.on_disk_now completed now (move_all g.in_progress started now t)))

module _ (T : TapeService) where
  abbrev pub groups : SetCalls → List PhysicalPath → Selection
  groups calls ps = select T calls (with_localities (T.storage calls) ps)

  In-some_group :
      (calls : SetCalls) (p : PhysicalPath) (ps : List PhysicalPath)
      → In p ps
      → In p (groups calls ps).need_recall
        ⊎ (In p (groups calls ps).the_rest
            ⊎ (In p (groups calls ps).on_disk_now ⊎ In p (groups calls ps).in_progress))
  unfolding select
  In-some_group calls p ps m =
      let path_locs = with_localities (T.storage calls) ps in
      let x : PathLocality = (p, locality (T.storage calls) p fresh) in
      let running : PathLocality → Bool = λ f. recall_in_progress T calls f.0 in
      elim (keep_either only_on_tape x path_locs (In-with_localities (T.storage calls) p ps m)) [
        | inl k ↦ elim (keep_either running x (keep only_on_tape path_locs) k) [
          | inl k' ↦ inr (inr (inr (In-paths_of x _ k')))
          | inr k' ↦ inl (In-paths_of x _ k')
        ]
        | inr k ↦ elim (keep_either on_disk x (keep (λ f. not (only_on_tape f)) path_locs) k) [
          | inl k' ↦ inr (inr (inl (In-paths_of x _ k')))
          | inr k' ↦ inr (inl (In-paths_of x _ k'))
        ]
      ]

  pub taken-HasLeft :
      (calls : SetCalls) (p : PhysicalPath) (ps : List PhysicalPath) (now : TimePoint) (t : Tables)
      → In p ps
      → HasLeft p (taken_tables (groups calls ps) now t)
  taken-HasLeft calls p ps now t m =
      let g = groups calls ps in
      let moves = λ (qs : List PhysicalPath) (s : State). move_all-HasLeft p qs s now in
      elim (In-some_group calls p ps m) [
        | inl k ↦ moves g.need_recall started _ refl (inl k)
        | inr (inl k) ↦
            moves g.need_recall started _ refl (inr (moves g.the_rest failed _ refl (inl k)))
        | inr (inr (inl k)) ↦ moves g.need_recall started _ refl (
            inr
              (moves g.the_rest failed _ refl (inr (moves g.on_disk_now completed _ refl (inl k)))))
        | inr (inr (inr k)) ↦ moves g.need_recall started _ refl (
            inr (
              moves g.the_rest failed _ refl (
                inr (
                  moves g.on_disk_now completed _ refl
                    (inr (moves g.in_progress started _ refl (inl k)))))))
      ]

  pub needed :
      (calls : SetCalls) (qs : List PhysicalPath) (ps : List PhysicalPath)
      → All (λ p. In p qs) ps
      → All (NeedsRecall T calls qs) (groups calls ps).need_recall
  unfolding select with_localities
  needed calls qs [] h = tt
  needed calls qs (p ∷ ps) h =
      go (only_on_tape (p, locality (T.storage calls) p fresh)) refl (needed calls qs ps h.1)
    where
      rest : List PathLocality
      rest = keep only_on_tape (with_localities (T.storage calls) ps)

      running : PathLocality → Bool
      running f = recall_in_progress T calls f.0

      pick :
          only_on_tape (p, locality (T.storage calls) p fresh) ≡ true
          → (c : Bool) → recall_in_progress T calls p ≡ c
          → All (NeedsRecall T calls qs) (paths_of (keep (λ f. not (running f)) rest))
          → All (NeedsRecall T calls qs) (
              paths_of (
                if not c
                then (p, locality (T.storage calls) p fresh) ∷ keep (λ f. not (running f)) rest
                else keep (λ f. not (running f)) rest))
      pick e true e' k = k
      pick e false e' k = ((h.0, e, e'), k)

      go :
          (b : Bool)
          → only_on_tape (p, locality (T.storage calls) p fresh) ≡ b
          → All (NeedsRecall T calls qs) (paths_of (keep (λ f. not (running f)) rest))
          → All (NeedsRecall T calls qs) (
              paths_of (
                keep
                  (λ f. not (running f))
                  (if b then (p, locality (T.storage calls) p fresh) ∷ rest else rest)))
      go false e k = k
      go true e k = pick e (recall_in_progress T calls p) refl k

  pub length-needed :
      (calls : SetCalls) (ps : List PhysicalPath) → length (groups calls ps).need_recall ≤ length ps
  unfolding select
  length-needed calls ps =
      let path_locs = with_localities (T.storage calls) ps in
      let tape = keep only_on_tape path_locs in
      omega (
        arith,
        length-paths_of (keep (λ f. not (recall_in_progress T calls f.0)) tape),
        length-keep (λ f. not (recall_in_progress T calls f.0)) tape,
        length-keep only_on_tape path_locs,
        length-with_localities (T.storage calls) ps,
      )
