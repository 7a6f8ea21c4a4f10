-- ===== src/Service/Progress.antt =====
-- TapeService::in_progress(InProgressRequest), when no statement of the database fails.
use storm_tape.Prelude.{
  ℕ, ◌≤◌, ◌≡◌, refl, subst, ◌⊎◌, inl, inr, Bool, true, false, ◌&&◌, List, [], ◌∷◌, arith, All, In,
  All-of_In, length, take, keep, eqb, ltb, if◌then◌else◌,
}
use storm_tape.Model.{PhysicalPath, started}
use storm_tape.Storage.{Storage, fresh, is_in_progress}
use storm_tape.Database
use storm_tape.Database.Session.{World}
use storm_tape.Database.Sql.{paths_in}
use storm_tape.Database.Runs.{IsQuiet, Runs, Runs-pure, Runs-bind, Runs-query}
use storm_tape.Service.{TapeService, storage_now}
use storm_tape.Service.Refresh.{storage_now-Runs}
use storm_tape.Service.Recall.{in_progress}
use storm_tape.Service.TakeOver.{length-take}

-- A path that is answered: one of those given, and with a recall running if that was asked.
abbrev pub IsAnswer : Storage → ℕ → List PhysicalPath → PhysicalPath → Type 0
IsAnswer S precise first p =
    In p first × ((ltb 0 precise ≡ false) ⊎ ((is_in_progress S p fresh).0 ≡ true))

module _ (S : Storage) (precise : ℕ) (first : List PhysicalPath) where
  length-keep : (q : PhysicalPath → Bool) (ps : List PhysicalPath) → length (keep q ps) ≤ length ps
  length-keep q [] = omega arith
  length-keep q (p ∷ ps) = ground (arith, length-keep q ps)

  kept :
      (ps : List PhysicalPath)
      → All (λ p. In p first) ps
      → All (IsAnswer S precise first) (keep (λ p. (is_in_progress S p fresh).0) ps)
  kept [] h = tt
  kept (p ∷ ps) h = go ((is_in_progress S p fresh).0) refl (kept ps h.1)
    where
      rest : List PhysicalPath
      rest = keep (λ p. (is_in_progress S p fresh).0) ps

      go :
          (b : Bool)
          → (is_in_progress S p fresh).0 ≡ b
          → All (IsAnswer S precise first) rest
          → All (IsAnswer S precise first) (if b then p ∷ rest else rest)
      go true e k = ((h.0, inr e), k)
      go false e k = k

  abbrev answered : Bool → List PhysicalPath
  answered b = if b then keep (λ p. (is_in_progress S p fresh).0) first else first

  answered-IsAnswer : (b : Bool) → ltb 0 precise ≡ b → All (IsAnswer S precise first) (answered b)
  answered-IsAnswer true e = kept first (All-of_In (λ p. In p first) first (λ p m. m))
  answered-IsAnswer false e = All-of_In (IsAnswer S precise first) first (λ p m. (m, inl e))

  answered-length : (b : Bool) → length (answered b) ≤ length first
  answered-length true = length-keep (λ p. (is_in_progress S p fresh).0) first
  answered-length false = omega arith

module _ (T : TapeService) (quiet : IsQuiet T.db) where
  get_files-Runs :
      (n : ℕ) (w : World)
      → (T.db.empty_fetch_throws && eqb n 0) ≡ false
      → Runs
          (Database.get_files T.db started n)
          w
          (take n (T.db.row_order (paths_in started w.tables)))
          w.tables
  unfolding Database.get_files
  get_files-Runs n w h =
      rw h (Runs-query T.db quiet (λ t. take n (T.db.row_order (paths_in started t))) w)

  -- If no statement fails, and the engine can fetch as many paths as are asked for, in_progress changes
  -- nothing and returns at most `n` paths, all among the first `n` that the database gives for STARTED;
  -- if a precise answer is asked for, each has a recall running.
  pub in_progress-answers :
      (n precise : ℕ) (w : World)
      → (T.db.empty_fetch_throws && eqb n 0) ≡ false
      → (let first = take n (T.db.row_order (paths_in started w.tables)) in
          (ps : List PhysicalPath) × Runs (in_progress T n precise) w ps w.tables
          × (length ps ≤ n)
          × All (IsAnswer (T.storage w.set_calls) precise first) ps)
  unfolding in_progress
  in_progress-answers n precise w h =
      let first = take n (T.db.row_order (paths_in started w.tables)) in
      let S = T.storage w.set_calls in
      (
        answered S precise first (ltb 0 precise),
        Runs-bind (Database.get_files T.db started n) _ w first _ w.tables _ (get_files-Runs n w h)
            λ w1 e1 c1.
              Runs-bind (storage_now T) _ w1 S _ w.tables _
                (subst (λ c. Runs (storage_now T) w1 (T.storage c) w.tables) c1
                  (subst (Runs (storage_now T) w1 _) e1 (storage_now-Runs T quiet w1)))
                λ w2 e2 _. subst (Runs _ w2 _) e2 (Runs-pure w2 _),
        omega (
          arith,
          answered-length S precise first (ltb 0 precise),
          length-take n (T.db.row_order (paths_in started w.tables)),
        ),
        answered-IsAnswer S precise first (ltb 0 precise) refl,
      )
