-- ===== src/Service/Submit.antt =====
-- TapeService::stage, when no statement of the database fails: every request is stored.
use storm_tape.Prelude.{
  ◌≡◌, ◌≢◌, refl, sym, ap, subst, ◌∙◌, inl, inr, true, false, Option, some, List, [], ◌∷◌, arith,
  All, keep,
}
use storm_tape.Model.{
  TimePoint, StageId, LogicalPath, PhysicalPath, File, StageRequest, StorageArea,
}
use storm_tape.Path.{path_lt, path_eq, path_key}
use storm_tape.Path.Order.{path_lt_irrefl, text_lt-IsStrictOrder}
use storm_tape.Path.Lex.{lex-IsStrictOrder}
use storm_tape.Resolver.{resolve}
use storm_tape.Resolver.Resolve.{IsValidAreas, Answered, resolve-Answered}
use storm_tape.Algorithm.{sort, unique}
use storm_tape.Algorithm.Sorting.{sort-IsSorted, IsWeakOrder, strict-IsWeakOrder}
use storm_tape.Algorithm.Difference.{IsIncreasing}
use storm_tape.Algorithm.Unique.{unique-IsIncreasing}
use storm_tape.Host.{Kernel}
use storm_tape.Database.Session.{World}
use storm_tape.Database.Sql.{has_stage, in_stage}
use storm_tape.Database.Runs.{IsQuiet, Runs, Runs-pure, Runs-bind}
use storm_tape.Database.RoundTrip.{IsFresh, DistinctPaths, with_stage, insert-Runs}
use storm_tape.Service.{TapeService, stage, insert_resolved}
use storm_tape.Service.Files.{by_path, same_path, check_file, resolve_files}

by_path-IsWeakOrder : IsWeakOrder by_path
unfolding path_lt
by_path-IsWeakOrder =
    strict-IsWeakOrder (lex-IsStrictOrder text_lt-IsStrictOrder) (λ f. path_key f.logical_path)

-- The files as `stage` makes them, one for each of the given ones, in order.
abbrev pub AreResolved :
    Kernel → List StorageArea → (LogicalPath → TimePoint) → List File → List File → Type 0
AreResolved K sas clock [] [] = Unit
AreResolved K sas clock [] (g ∷ gs) = ⊥
AreResolved K sas clock (f ∷ fs) [] = ⊥
AreResolved K sas clock (f ∷ fs) (g ∷ gs) =
    ((p : PhysicalPath) × Answered sas f.logical_path (some p)
      × (g ≡ check_file K (clock f.logical_path) f p))
    × AreResolved K sas clock fs gs

module _ (K : Kernel) (sas : List StorageArea) (clock : LogicalPath → TimePoint) where
  pub Answered-some :
      (path : LogicalPath) (o : Option PhysicalPath)
      → Answered sas path o
      → (p : PhysicalPath) × (o ≡ some p)
  Answered-some path o (inl (a, inl h)) = (_, h.0)
  Answered-some path o (inl (a, inr (sa, q, rest, l, e))) = (_, e)
  Answered-some path o (inr h) = (_, h.1)

  resolve_files-AreResolved :
      (fs : List File)
      → IsValidAreas sas
      → (gs : List File) × (resolve_files K sas clock fs ≡ some gs) × AreResolved K sas clock fs gs
  unfolding resolve_files
  resolve_files-AreResolved [] v = ([], refl, tt)
  resolve_files-AreResolved (f ∷ fs) v =
      let found = resolve-Answered sas f.logical_path v in
      let (p, e) = Answered-some f.logical_path (resolve sas f.logical_path) found in
      let (gs, e', rest) = resolve_files-AreResolved fs v in
      (
        check_file K (clock f.logical_path) f p ∷ gs,
        rw (e, e'),
        ((p, subst (Answered sas f.logical_path) e found, refl), rest),
      )

  check_file-path :
      (now : TimePoint) (f : File) (p : PhysicalPath)
      → (check_file K now f p).logical_path ≡ f.logical_path
  check_file-path now f p = ground arith

  apart :
      (f g : File) (p : PhysicalPath) (fs gs : List File)
      → g ≡ check_file K (clock f.logical_path) f p
      → All (λ h. path_lt f.logical_path h.logical_path ≡ true) fs
      → AreResolved K sas clock fs gs
      → All (λ h. h.logical_path ≢ g.logical_path) gs
  apart f g p [] [] e a r = tt
  apart f g p [] (h ∷ gs) e a r = absurd r
  apart f g p (k ∷ fs) [] e a r = absurd r
  apart f g p (k ∷ fs) (h ∷ gs) e a r =
      let (q, _, e') = r.0 in
      (
        λ same. differ f.logical_path k.logical_path a.0 (
            sym (check_file-path (clock f.logical_path) f p)
            ∙ sym (ap (λ x. x.logical_path) e)
            ∙ sym same
            ∙ ap (λ x. x.logical_path) e'
            ∙ check_file-path (clock k.logical_path) k q),
        apart f g p fs gs e a.1 r.1,
      )
    where
      differ : (p q : LogicalPath) → path_lt p q ≡ true → p ≢ q
      differ p q h e =
          ground (arith, subst (λ x. path_lt p x ≡ true) (sym e) h, path_lt_irrefl p p p)

  resolved-DistinctPaths :
      (fs gs : List File)
      → IsIncreasing by_path fs
      → AreResolved K sas clock fs gs
      → DistinctPaths gs
  resolved-DistinctPaths [] [] i r = tt
  resolved-DistinctPaths [] (g ∷ gs) i r = absurd r
  resolved-DistinctPaths (f ∷ fs) [] i r = absurd r
  resolved-DistinctPaths (f ∷ fs) (g ∷ gs) i r =
      let (p, _, e) = r.0 in (apart f g p fs gs e i.0 r.1, resolved-DistinctPaths fs gs i.1 r.1)

-- The files of a request as `stage` handles them: sorted, each path once.
abbrev pub distinct_files : List File → List File
distinct_files fs = unique same_path (sort by_path fs)

module _ (T : TapeService) (quiet : IsQuiet T.db) where
  insert_resolved-Runs :
      (id : StageId) (request : StageRequest) (files : List File) (w : World)
      → IsFresh id (record request { files = files }) w.tables
      → Runs
          (insert_resolved T id request (some files))
          w
          (record { id = id; files = files })
          (with_stage id (record request { files = files }) w.tables)
  unfolding insert_resolved
  insert_resolved-Runs id request files w h =
      Runs-bind _ _ w true _ _ _ (insert-Runs T.db quiet id (record request { files = files }) w h)
        λ w' e _. subst (Runs _ w' _) e (Runs-pure w' _)

  -- If no statement fails, the storage areas are valid and the id is new, then stage returns the id, and
  -- stores the request with its files sorted and each path once: a file has the physical path that the
  -- resolver gives it, the empty one if its path is relative or not normal, and is FAILED from the start
  -- if there is no regular file.
  pub stage-stores :
      (id : StageId) (clock : LogicalPath → TimePoint) (request : StageRequest) (w : World)
      → IsValidAreas T.config.storage_areas
      → has_stage id w.tables.stages ≡ false
      → keep (in_stage id) w.tables.files ≡ []
      → (files : List File) × Runs
          (stage T id clock request)
          w
          (record { id = id; files = files })
          (with_stage id (record request { files = files }) w.tables)
        × AreResolved T.kernel T.config.storage_areas clock (distinct_files request.files) files
        × IsIncreasing by_path (distinct_files request.files)
  unfolding stage
  stage-stores id clock request w v new none_left =
      let fs = distinct_files request.files in
      let increasing =
        unique-IsIncreasing by_path-IsWeakOrder same_path same_path-equivalent
          (sort by_path request.files) (sort-IsSorted by_path-IsWeakOrder request.files) in
      let (files, e, resolved) =
        resolve_files-AreResolved T.kernel T.config.storage_areas clock fs v in
      (
        files,
        subst
            (λ o.
              Runs (insert_resolved T id request o) w (record { id = id; files = files })
                (with_stage id (record request { files = files }) w.tables))
            (sym e)
            (insert_resolved-Runs id request files w (record {
              stage = new;
              files = none_left;
              paths =
                  resolved-DistinctPaths T.kernel T.config.storage_areas clock fs files increasing
                    resolved;
            })),
        resolved,
        increasing,
      )
    where
      same_path-equivalent :
          (f g : File) → by_path f g ≡ false → by_path g f ≡ false → same_path f g ≡ true
      same_path-equivalent f g h k = unfold path_eq in rw (h, k)
