-- ===== src/Service/Recalling.antt =====
-- TapeService over LocalStorage: what take_over leaves behind for the requests after it.
use storm_tape.Prelude.{
  ℕ, ◌≡◌, sym, ap, subst, ◌∙◌, inl, inr, true, false, ◌&&◌, none, List, [], ◌∷◌, ◌++◌, map, All, In,
  All-of_In, eqb, if◌then◌else◌,
}
use storm_tape.Model.{TimePoint, PhysicalPath, started, File}
use storm_tape.Host.{Kernel, SetCalls, ret, tsm_rect, has_xattr}
use storm_tape.Storage.{value}
use storm_tape.Storage.Local.{local_storage}
use storm_tape.Database.Session.{World, ok}
use storm_tape.Database.Runs.{IsQuiet}
use storm_tape.Service.{TapeService}
use storm_tape.Service.Files.{refresh}
use storm_tape.Service.Recall.{take_over, recall_in_progress}
use storm_tape.Service.Refresh.{refresh-eq-verdict}
use storm_tape.Service.TakeOver.{take_over-takes}

-- The calls of setxattr succeed, and getxattr reports an attribute that was set.
abbrev pub Reports : Kernel → Type 0
Reports K =
    (calls : SetCalls) (p : PhysicalPath)
    → In (p, tsm_rect) calls
    → (n : ℕ) × (K.getxattr calls p tsm_rect ≡ ret n)

In-append_right : {A : Type 0} (x : A) (xs ys : List A) → In x ys → In x (xs ++ ys)
In-append_right x [] ys m = m
In-append_right x (y ∷ xs) ys m = inr (In-append_right x xs ys m)

In-map : {A B : Type 0} (f : A → B) (x : A) (xs : List A) → In x xs → In (f x) (map f xs)
In-map f x [] m = absurd m
In-map f x (y ∷ ys) (inl e) = inl (ap f e)
In-map f x (y ∷ ys) (inr m) = inr (In-map f x ys m)

-- The path is seen to be recalled: by take_over, which will not select it, and by status, which
-- leaves a STARTED file of this path as it is.
pub record IsRecalled (T : TapeService) (calls : SetCalls) (p : PhysicalPath) : Type 0 where
  pub running : recall_in_progress T calls p ≡ true
  pub waits :
      (later : TimePoint) (f : File)
      → (let g = record f { physical_path = p; state = started } in
          refresh (T.storage calls) later g ≡ (g, none))

module _ (T : TapeService) (local : T.storage ≡ local_storage T.kernel)
    (reports : Reports T.kernel) where
  set-IsRecalled :
      (calls : SetCalls) (p : PhysicalPath) → In (p, tsm_rect) calls → IsRecalled T calls p
  unfolding recall_in_progress has_xattr local_storage
  set-IsRecalled calls p m =
      let (n, e) = reports calls p m in
      let running : (local_storage T.kernel calls).is_in_progress p ≡ value true = rw e in
      let answer : (T.storage calls).is_in_progress p ≡ value true =
        ap (λ S. (S calls).is_in_progress p) local ∙ running in
      record {
        running = rw e;
        waits = λ later f.
            refresh-eq-verdict (T.storage calls) later
              (record f { physical_path = p; state = started })
            ∙ rw answer;
      }

  -- If no statement fails, and the service is no mirror, asks LocalStorage, and runs on a kernel whose
  -- setxattr succeeds and whose getxattr reports what was set, then after take_over each path that it
  -- returned is seen to be recalled: recall_in_progress says so, and status leaves a STARTED file of
  -- this path as it is.
  pub take_over-recalls :
      (quiet : IsQuiet T.db) (n : ℕ) (now : TimePoint) (w : World)
      → (T.db.empty_fetch_throws && eqb n 0) ≡ false
      → T.config.mirror_mode ≡ false
      → (need : List PhysicalPath) × (after : World) × (take_over T n now w ≡ (ok need, after))
        × All (IsRecalled T after.set_calls) need
  take_over-recalls quiet n now w h mirror =
      let (need, after, ran, _, _, _, calls) = take_over-takes T quiet n now w h in
      let set : after.set_calls ≡ w.set_calls ++ map (λ p. (p, tsm_rect)) need =
        calls
        ∙ ap (λ b. if b then w.set_calls else w.set_calls ++ map (λ p. (p, tsm_rect)) need)
            mirror in
      (
        need,
        after,
        ran,
        All-of_In (IsRecalled T after.set_calls) need λ p m. set-IsRecalled after.set_calls p (
            subst (In (p, tsm_rect)) (sym set)
              (In-append_right (p, tsm_rect) w.set_calls _ (In-map (λ q. (q, tsm_rect)) p need m))),
      )
