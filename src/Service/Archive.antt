-- ===== src/Service/Archive.antt =====
-- TapeService::archive_info.
use storm_tape.Prelude.{◌≡◌, ◌≢◌, refl, subst, ap, some, List, [], ◌∷◌, arith, All}
use storm_tape.Model.{LogicalPath, PhysicalPath, Locality}
use storm_tape.Resolver.{resolve}
use storm_tape.Resolver.Resolve.{IsValidAreas, Answered, resolve-Answered}
use storm_tape.Storage.{Storage, fresh, locality}
use storm_tape.Database.Session.{World, ok, pure, ◌>>=◌}
use storm_tape.Service.{
  TapeService, PathInfo, located, override_locality, info_at, infos, archive_info, or_undefined,
}
use storm_tape.Service.Submit.{Answered-some}

-- One answer for each path, in order, about the physical path that the resolver gives.
abbrev pub AreInfos : TapeService → Storage → List LogicalPath → List PathInfo → Type 0
AreInfos T S [] [] = Unit
AreInfos T S [] (i ∷ is) = ⊥
AreInfos T S (path ∷ paths) [] = ⊥
AreInfos T S (path ∷ paths) (i ∷ is) =
    ((p : PhysicalPath) × Answered T.config.storage_areas path (some p)
      × (i ≡ record { path = path; info = info_at T S p }))
    × AreInfos T S paths is

module _ (T : TapeService) (v : IsValidAreas T.config.storage_areas) where
  override_locality-kept : (l : Locality) → located (override_locality T l) ≢ located Locality.lost
  unfolding override_locality
  override_locality-kept Locality.unavailable e = ground arith
  override_locality-kept Locality.disk e = ground arith
  override_locality-kept Locality.tape e = ground arith
  override_locality-kept Locality.disk_and_tape e = ground arith
  override_locality-kept Locality.lost e = ground arith
  override_locality-kept Locality.none e = ground arith

  info_at-found : (S : Storage) (p : PhysicalPath) → info_at T S p ≢ located Locality.lost
  unfolding info_at
  info_at-found S p e = ground (arith, override_locality-kept (locality S p fresh))

  infos-All :
      (S : Storage) (paths : List LogicalPath)
      → (found : List PathInfo) × (infos T S paths ≡ some found)
        × AreInfos T S paths found
        × All (λ i. i.info ≢ located Locality.lost) found
  unfolding infos
  infos-All S [] = ([], refl, tt, tt)
  infos-All S (path ∷ paths) =
      let answer = resolve-Answered T.config.storage_areas path v in
      let (p, e) =
        Answered-some T.kernel T.config.storage_areas (λ _. 0) path
          (resolve T.config.storage_areas path) answer in
      let (found, e', infos', kept) = infos-All S paths in
      (
        record { path = path; info = info_at T S p } ∷ found,
        rw (e, e'),
        ((p, subst (Answered T.config.storage_areas path) e answer, refl), infos'),
        (info_at-found S p, kept),
      )

  -- For valid storage areas archive_info returns one answer for each path, in the order of the request,
  -- about the physical path that the resolver gives it, the empty one for a path that is relative or not
  -- normal; it changes nothing, and never answers LOST.
  pub archive_info_answers :
      (paths : List LogicalPath) (w : World)
      → (found : List PathInfo) × (archive_info T paths w ≡ (ok found, w))
        × AreInfos T (T.storage w.set_calls) paths found
        × All (λ i. i.info ≢ located Locality.lost) found
  unfolding archive_info ◌>>=◌ pure
  archive_info_answers paths w =
      let (found, e, infos', kept) = infos-All (T.storage w.set_calls) paths in
      (found, ap (λ o. or_undefined T o w) e, infos', kept)
