-- ===== src/Service/TakeOver.antt =====
-- TapeService::take_over, when no statement of the database fails.
use storm_tape.Prelude.{
  ℕ, ◌≤◌, ◌≡◌, refl, sym, ap, subst, ◌∙◌, Bool, true, false, ◌&&◌, List, [], ◌∷◌, ◌++◌, map, arith,
  All, In, All-of_In, zero, suc, length, take, eqb, if◌then◌else◌,
}
use storm_tape.Model.{TimePoint, PhysicalPath, submitted, started, failed, completed}
use storm_tape.Host.{SetCalls, tsm_rect}
use storm_tape.Database
use storm_tape.Database.Session.{World, Tables, Db, ok, pure, ◌>>=◌}
use storm_tape.Database.Sql.{paths_in}
use storm_tape.Database.Runs.{IsQuiet, Runs, Runs-query, bind_ok}
use storm_tape.Database.Updates.{update_all_physical-Runs}
use storm_tape.Service.{TapeService}
use storm_tape.Service.Recall.{Selection, create_xattrs, selection_now, store_selection, take_over}
use storm_tape.Service.Groups.{
  HasLeft, NeedsRecall, taken_tables, groups, taken-HasLeft, needed, length-needed,
}

pub length-take : {A : Type 0} (n : ℕ) (xs : List A) → length (take n xs) ≤ n
length-take zero xs = omega arith
length-take (suc n) [] = omega arith
length-take (suc n) (x ∷ xs) = omega (arith, length-take n xs)

All-self : {A : Type 0} (xs : List A) → All (λ x. In x xs) xs
All-self xs = All-of_In (λ x. In x xs) xs (λ x m. m)

module _ (T : TapeService) (quiet : IsQuiet T.db) where
  -- Its result, the tables, and the attributes that are set.
  pub record Ran {A : Type 0} (m : Db A) (w : World) (a : A) (t : Tables) (sets : SetCalls)
      : Type 0 where
    pub after : World
    pub result : m w ≡ (ok a, after)
    pub tables : after.tables ≡ t
    pub calls : after.set_calls ≡ sets

  Ran-bind :
      {A B : Type 0} (m : Db A) (f : A → Db B) (w : World) (a : A) (b : B) (t t' : Tables)
      (calls : SetCalls)
      → Runs m w a t
      → ((w' : World) → w'.tables ≡ t → w'.set_calls ≡ w.set_calls → Ran (f a) w' b t' calls)
      → Ran (m >>= f) w b t' calls
  Ran-bind m f w a b t t' calls r k =
      let next = k r.after r.tables r.calls in
      record {
        after = next.after;
        result = bind_ok m f w r.after a r.result ∙ next.result;
        tables = next.tables;
        calls = next.calls;
      }

  Ran-then :
      {A B : Type 0} (m : Db A) (f : A → Db B) (w : World) (a : A) (b : B) (t t' : Tables)
      (calls calls' : SetCalls)
      → Ran m w a t calls
      → ((w' : World) → w'.tables ≡ t → w'.set_calls ≡ calls → Ran (f a) w' b t' calls')
      → Ran (m >>= f) w b t' calls'
  Ran-then m f w a b t t' calls calls' r k =
      let next = k r.after r.tables r.calls in
      record {
        after = next.after;
        result = bind_ok m f w r.after a r.result ∙ next.result;
        tables = next.tables;
        calls = next.calls;
      }

  pure_result : {A : Type 0} (w : World) (a : A) → pure a w ≡ (ok a, w)
  unfolding pure
  pure_result w a = refl

  -- The attributes that are set for the paths to recall.
  abbrev pub new_calls : SetCalls → List PhysicalPath → SetCalls
  new_calls calls ps = if T.config.mirror_mode then calls else calls ++ map (λ p. (p, tsm_rect)) ps

  set-Ran :
      (ps : List PhysicalPath) (w : World) (t : Tables)
      → w.tables ≡ t
      → Ran
          (if T.config.mirror_mode then pure tt else create_xattrs T ps)
          w
          tt
          t
          (new_calls w.set_calls ps)
  unfolding pure create_xattrs
  set-Ran ps w t e = go T.config.mirror_mode
    where
      go :
          (b : Bool)
          → Ran
              (if b then pure tt else create_xattrs T ps)
              w
              tt
              t
              (if b then w.set_calls else w.set_calls ++ map (λ p. (p, tsm_rect)) ps)
      go true = record { after = w; result = refl; tables = e; calls = refl }
      go false = record { after = _; result = refl; tables = e; calls = refl }

  store_selection-Ran :
      (g : Selection) (now : TimePoint) (w : World) (t : Tables)
      → w.tables ≡ t
      → Ran
          (store_selection T g now)
          w
          g.need_recall
          (taken_tables g now t)
          (new_calls w.set_calls g.need_recall)
  unfolding store_selection
  store_selection-Ran g now w t e =
      Ran-bind _ _ w true _ _ _ _
        (update_all_physical-Runs T.db quiet g.in_progress started now w t e)
        λ w1 e1 c1.
          Ran-bind _ _ w1 true _ _ _ _
            (update_all_physical-Runs T.db quiet g.on_disk_now completed now w1 _ e1)
            λ w2 e2 c2.
              Ran-bind _ _ w2 true _ _ _ _
                (update_all_physical-Runs T.db quiet g.the_rest failed now w2 _ e2)
                λ w3 e3 c3.
                  Ran-then _ _ w3 tt g.need_recall _ _ (new_calls w3.set_calls g.need_recall) _
                    (set-Ran g.need_recall w3 _ e3)
                    λ w4 e4 c4.
                      Ran-bind _ _ w4 true _ _ _ _
                        (update_all_physical-Runs T.db quiet g.need_recall started now w4 _ e4)
                        λ w5 e5 c5. record {
                          after = w5;
                          result = pure_result w5 g.need_recall;
                          tables = e5;
                          calls = c5 ∙ c4 ∙ ap (λ c. new_calls c g.need_recall) (c3 ∙ c2 ∙ c1);
                        }

  get_files-Runs :
      (n : ℕ) (w : World)
      → (T.db.empty_fetch_throws && eqb n 0) ≡ false
      → Runs
          (Database.get_files T.db submitted n)
          w
          (take n (T.db.row_order (paths_in submitted w.tables)))
          w.tables
  unfolding Database.get_files
  get_files-Runs n w h =
      rw h (Runs-query T.db quiet (λ t. take n (T.db.row_order (paths_in submitted t))) w)

  selection_now-Runs :
      (ps : List PhysicalPath) (w : World)
      → Runs (selection_now T ps) w (groups T w.set_calls ps) w.tables
  unfolding selection_now
  selection_now-Runs ps w = record { after = w; result = refl; tables = refl; calls = refl }

  pub take_over-Ran :
      (n : ℕ) (now : TimePoint) (w : World)
      → (T.db.empty_fetch_throws && eqb n 0) ≡ false
      → (let g = groups T w.set_calls (take n (T.db.row_order (paths_in submitted w.tables))) in
          Ran
            (take_over T n now)
            w
            g.need_recall
            (taken_tables g now w.tables)
            (new_calls w.set_calls g.need_recall))
  unfolding take_over
  take_over-Ran n now w h =
      let first = take n (T.db.row_order (paths_in submitted w.tables)) in
      let g = groups T w.set_calls first in
      Ran-bind _ _ w first _ w.tables _ _ (get_files-Runs n w h) λ w1 e1 c1.
        Ran-bind _ _ w1 g _ w.tables _ _
          (subst (Runs (selection_now T first) w1 g) e1 (
            subst (λ c. Runs (selection_now T first) w1 (groups T c first) w1.tables) c1
              (selection_now-Runs first w1)))
          λ w2 e2 c2.
            subst
              (λ c.
                Ran (store_selection T g now) w2 g.need_recall (taken_tables g now w.tables)
                  (new_calls c g.need_recall))
              (c2 ∙ c1) (store_selection-Ran g now w2 w.tables e2)

  -- If no statement fails, and the engine can fetch `n` paths, as it can if `n` > 0, take_over returns
  -- paths of the first `n` that the database gives for SUBMITTED; all that it returns are on tape only,
  -- or lost, with no recall running; and none of those first `n` has a row that is SUBMITTED afterwards.
  -- Unless the service is a mirror, it has set the recall attribute of what it returns.
  pub take_over-takes :
      (n : ℕ) (now : TimePoint) (w : World)
      → (T.db.empty_fetch_throws && eqb n 0) ≡ false
      → (let first = take n (T.db.row_order (paths_in submitted w.tables)) in
          (need : List PhysicalPath) × (after : World) × (take_over T n now w ≡ (ok need, after))
          × (length need ≤ n)
          × All (NeedsRecall T w.set_calls first) need
          × All (λ p. HasLeft p after.tables) first
          × (after.set_calls ≡ new_calls w.set_calls need))
  take_over-takes n now w h =
      let first = take n (T.db.row_order (paths_in submitted w.tables)) in
      let g = groups T w.set_calls first in
      let ran = take_over-Ran n now w h in
      (
        g.need_recall,
        ran.after,
        ran.result,
        omega (
          arith,
          length-needed T w.set_calls first,
          length-take n (T.db.row_order (paths_in submitted w.tables)),
        ),
        needed T w.set_calls first first (All-self first),
        All-of_In (λ p. HasLeft p ran.after.tables) first
            λ p m.
              subst (HasLeft p) (sym ran.tables)
                (taken-HasLeft T w.set_calls p first now w.tables m),
        ran.calls,
      )
