-- ===== src/Service/Changes.antt =====
-- The changes that TapeService::status stores make of the files what it returns.
use storm_tape.Prelude.{
  ◌≡◌, ◌≢◌, refl, sym, ap, ap₂, subst, ◌∙◌, Bool, true, false, Option, none, some, List, [], ◌∷◌,
  ◌++◌, map, arith, All, ==_iff,
}
use storm_tape.Model.{
  TimePoint, PhysicalPath, State, submitted, started, cancelled, failed, completed, FileSizeInfo,
  File,
}
use storm_tape.Storage.{Storage, Answer, value, failure}
use storm_tape.Database.Rows.{IsTimed}
use storm_tape.Database.Abstract.{in_turn}
use storm_tape.Database.Abstract.Changes.{each_physical}
use storm_tape.Service.Files.{refresh, refresh_all, changes, changes_of}
use storm_tape.Service.Refresh.{verdict, moved, refresh-eq-verdict}

-- A file as a valid row holds it.
abbrev pub IsTimedFile : File → Type 0
IsTimedFile f = IsTimed f.state f.started_at f.finished_at

-- No two files have one physical path.
abbrev pub DistinctPhysical : List File → Type 0
DistinctPhysical [] = Unit
DistinctPhysical (f ∷ fs) = All (λ g. g.physical_path ≢ f.physical_path) fs × DistinctPhysical fs

module _ (S : Storage) (now : TimePoint) where
  -- The change that is stored for a file makes of it what status returns.
  own_change :
      (f : File)
      → IsTimedFile f
      → in_turn (each_physical now) (changes_of S now (refresh S now f)) f ≡ (refresh S now f).0
  unfolding changes_of
  own_change f h =
      rw (refresh-eq-verdict S now f)
        (go f.state refl (S.is_in_progress f.physical_path) (S.file_size_info f.physical_path) h)
    where
      go :
          (s : State)
          → f.state ≡ s
          → (p : Answer Bool) (i : Answer FileSizeInfo) → IsTimed s f.started_at f.finished_at
          → in_turn (each_physical now) (changes_of S now (moved f now (verdict s p i))) f
            ≡ (moved f now (verdict s p i)).0
      go submitted e (value true) i h = ground (arith, ==_iff f.physical_path f.physical_path)
      go submitted e (value false) (value i) h =
          ground (arith, ==_iff f.physical_path f.physical_path)
      go submitted e (value false) (failure c) h =
          ground (arith, ==_iff f.physical_path f.physical_path)
      go submitted e (failure c) i h = ground (arith, ==_iff f.physical_path f.physical_path)
      go started e (value true) i h = refl
      go started e (value false) (value i) h =
          ground (arith, ==_iff f.physical_path f.physical_path)
      go started e (value false) (failure c) h =
          ground (arith, ==_iff f.physical_path f.physical_path)
      go started e (failure c) (value i) h = ground (arith, ==_iff f.physical_path f.physical_path)
      go started e (failure c) (failure c') h =
          ground (arith, ==_iff f.physical_path f.physical_path)
      go cancelled e p i h = refl
      go failed e p i h = refl
      go completed e p i h = refl

  pub refresh-path : (f : File) → (refresh S now f).0.physical_path ≡ f.physical_path
  refresh-path f = ap (λ x. x.0.physical_path) (refresh-eq-verdict S now f) ∙ go _
    where
      go : (o : Option State) → (moved f now o).0.physical_path ≡ f.physical_path
      go none = refl
      go (some submitted) = refl
      go (some started) = refl
      go (some cancelled) = refl
      go (some failed) = refl
      go (some completed) = refl

  -- The change of another physical path leaves a file.
  other_change :
      (g f : File)
      → g.physical_path ≢ f.physical_path
      → in_turn (each_physical now) (changes_of S now (refresh S now g)) f ≡ f
  unfolding changes_of
  other_change g f n =
      go (refresh S now g).0 (refresh S now g).1 (λ e. n (sym (refresh-path g) ∙ e))
    where
      go :
          (h : File) (o : Option State)
          → h.physical_path ≢ f.physical_path
          → in_turn (each_physical now) (changes_of S now (h, o)) f ≡ f
      go h none n = refl
      go h (some submitted) n = refl
      go h (some started) n = ground (arith, ==_iff f.physical_path h.physical_path)
      go h (some cancelled) n = ground (arith, ==_iff f.physical_path h.physical_path)
      go h (some failed) n = ground (arith, ==_iff f.physical_path h.physical_path)
      go h (some completed) n = ground (arith, ==_iff f.physical_path h.physical_path)

  in_turn-append :
      (xs ys : List (PhysicalPath × State)) (f : File)
      → in_turn (each_physical now) (xs ++ ys) f
        ≡ in_turn (each_physical now) ys (in_turn (each_physical now) xs f)
  in_turn-append [] ys f = refl
  in_turn-append (x ∷ xs) ys f = in_turn-append xs ys (each_physical now x f)

  other_changes :
      (f : File) (gs : List File)
      → All (λ g. g.physical_path ≢ f.physical_path) gs
      → in_turn (each_physical now) (changes S now gs) f ≡ f
  unfolding changes
  other_changes f [] n = refl
  other_changes f (g ∷ gs) n =
      in_turn-append (changes_of S now (refresh S now g)) (changes S now gs) f
      ∙ ap (in_turn (each_physical now) (changes S now gs)) (other_change g f n.0)
      ∙ other_changes f gs n.1

  -- After the change of another file, the rest of the changes are what they were.
  after_other :
      (f : File) (fs gs : List File)
      → All (λ g. g.physical_path ≢ f.physical_path) gs
      → map (in_turn (each_physical now) (changes S now (f ∷ fs))) gs
        ≡ map (in_turn (each_physical now) (changes S now fs)) gs
  unfolding changes
  after_other f fs [] n = refl
  after_other f fs (g ∷ gs) n =
      ap₂ ◌∷◌
        (in_turn-append (changes_of S now (refresh S now f)) (changes S now fs) g
          ∙ ap (in_turn (each_physical now) (changes S now fs))
              (other_change f g (λ e. n.0 (sym e))))
        (after_other f fs gs n.1)

  -- All the changes make of the files what status returns.
  pub all_changes :
      (fs : List File)
      → All IsTimedFile fs
      → DistinctPhysical fs
      → map (in_turn (each_physical now) (changes S now fs)) fs ≡ refresh_all S now fs
  unfolding changes refresh_all
  all_changes [] h d = refl
  all_changes (f ∷ fs) h d =
      ap₂ ◌∷◌
        (in_turn-append (changes_of S now (refresh S now f)) (changes S now fs) f
          ∙ ap (in_turn (each_physical now) (changes S now fs)) (own_change f h.0)
          ∙ other_changes (refresh S now f).0 fs
              (subst (λ p. All (λ g. g.physical_path ≢ p) fs) (sym (refresh-path f)) d.0))
        (after_other f fs fs d.0 ∙ all_changes fs h.1 d.1)
