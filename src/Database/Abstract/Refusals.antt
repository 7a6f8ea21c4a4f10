-- ===== src/Database/Abstract/Refusals.antt =====
-- insert when its stage cannot be stored: the id is taken, or two files have one path. The transaction
-- takes back what has been written.
use storm_tape.Prelude.{
  ◌≡◌, ◌≢◌, refl, ap, ◌∙◌, All, Bool, true, false, ◌||◌, Option, none, List, [], ◌∷◌, ◌++◌, arith,
  ==_iff, Bool-cases, inl, inr,
}
use storm_tape.Model.{StageId, LogicalPath, File, StageRequest}
use storm_tape.Database.Session.{
  Engine, Tables, World, Db, Result, err, soci_error, execute, transaction, attempt, ◌>>=◌,
  continue, committed, caught, tick,
}
use storm_tape.Database.Sql.{has_file, has_stage, insert_stage, insert_file, to_entity}
use storm_tape.Database.Rows.{has_file-append}
use storm_tape.Database.Runs.{IsQuiet, Runs, Runs-execute}
use storm_tape.Database.RoundTrip.{stage_row, DistinctPaths}
use storm_tape.Database.Abstract.{has_path, repeats}
use storm_tape.Database.{insert, insert_rows, insert_files}

-- `m` throws a soci_error, and sets no attribute.
record Fails {A : Type 0} (m : Db A) (w : World) : Type 0 where
  pub after : World
  pub result : m w ≡ (err soci_error, after)
  pub calls : after.set_calls ≡ w.set_calls

module _ {A B : Type 0} where
  Fails-first : (m : Db A) (f : A → Db B) (w : World) → Fails m w → Fails (m >>= f) w
  unfolding ◌>>=◌
  Fails-first m f w h = record {
    after = h.after;
    result = ap (λ (x : Result A × World). continue x.0 f x.1) h.result;
    calls = h.calls;
  }

  Fails-later :
      (m : Db A) (f : A → Db B) (w : World) (a : A) (t : Tables)
      → Runs m w a t
      → ((w' : World) → w'.tables ≡ t → Fails (f a) w')
      → Fails (m >>= f) w
  unfolding ◌>>=◌
  Fails-later m f w a t r k =
      let next = k r.after r.tables in
      record {
        after = next.after;
        result = ap (λ (x : Result A × World). continue x.0 f x.1) r.result ∙ next.result;
        calls = next.calls ∙ r.calls;
      }

-- A path of the files is taken already.
abbrev blocked : StageId → List File → Tables → Bool
blocked id [] t = false
blocked id (f ∷ fs) t = has_file id f.logical_path t.files || blocked id fs t

abbrev with_file : StageId → File → Tables → Tables
with_file id f t = record t { files = t.files ++ to_entity id f ∷ [] }

blocked-with_file :
    (id : StageId) (f : File) (t : Tables) (fs : List File)
    → blocked id fs (with_file id f t) ≡ (blocked id fs t || has_path f.logical_path fs)
blocked-with_file id f t [] = refl
blocked-with_file id f t (g ∷ fs) = ground (
  arith,
  blocked-with_file id f t fs,
  has_file-append id g.logical_path t.files (to_entity id f),
  ==_iff id id,
  ==_iff f.logical_path g.logical_path,
  ==_iff g.logical_path f.logical_path,
)

module _ (E : Engine) (quiet : IsQuiet E) where
  Fails-execute :
      (f : Tables → Option Tables) (w : World) → f w.tables ≡ none → Fails (execute E f) w
  unfolding execute
  Fails-execute f w e = record { after = tick w; result = rw (quiet w.issued, e); calls = refl }

  -- A transaction that fails changes nothing, and `attempt` tells it by false.
  refused :
      (m : Db Bool) (w : World)
      → ((w' : World) → w'.tables ≡ w.tables → Fails m w')
      → Runs (attempt (transaction E m)) w false w.tables
  unfolding attempt transaction
  refused m w k =
      let h = k (tick w) refl in
      record {
        after = record h.after { tables = w.tables };
        result = rw (quiet w.issued) (
            ap
              (λ (x : Result Bool × World).
                (caught (committed E w.tables x.0 x.1).0, (committed E w.tables x.0 x.1).1))
              h.result);
        tables = refl;
        calls = h.calls;
      }

  insert_files-Fails :
      (id : StageId) (fs : List File) (w : World) (t : Tables)
      → w.tables ≡ t
      → (repeats fs || blocked id fs t) ≡ true
      → Fails (insert_files E id fs) w
  unfolding insert_files insert_file
  insert_files-Fails id [] w t e h = absurd (ground arith)
  insert_files-Fails id (f ∷ fs) w t e h = elim (Bool-cases (has_file id f.logical_path t.files)) [
    | inl taken ↦ Fails-first _ _ w (
        Fails-execute (insert_file (to_entity id f)) w
          (ap (insert_file (to_entity id f)) e ∙ rw taken))
    | inr free ↦
        Fails-later _ _ w tt (with_file id f t)
          (Runs-execute E quiet (insert_file (to_entity id f)) w _
            (ap (insert_file (to_entity id f)) e ∙ rw free))
          λ w' e'.
            insert_files-Fails id fs w' (with_file id f t) e'
              (ground (arith, blocked-with_file id f t fs))
  ]

  -- The id is taken.
  pub insert-taken :
      (id : StageId) (r : StageRequest) (w : World)
      → has_stage id w.tables.stages ≡ true
      → Runs (insert E id r) w false w.tables
  unfolding insert insert_rows insert_stage
  insert-taken id r w h = refused _ w λ w' e. Fails-first _ _ w' (
      Fails-execute (insert_stage (stage_row id r)) w'
        (ap (insert_stage (stage_row id r)) e ∙ rw h))

  -- Two files have one path.
  pub insert-repeated :
      (id : StageId) (r : StageRequest) (w : World)
      → has_stage id w.tables.stages ≡ false
      → repeats r.files ≡ true
      → Runs (insert E id r) w false w.tables
  unfolding insert insert_rows insert_stage
  insert-repeated id r w new h = refused _ w λ w' e.
      Fails-later _ _ w' tt (record w.tables { stages = w.tables.stages ++ stage_row id r ∷ [] })
        (Runs-execute E quiet (insert_stage (stage_row id r)) w' _
          (ap (insert_stage (stage_row id r)) e ∙ rw new))
        λ w'' e'. insert_files-Fails id r.files w'' _ e' (rw h)

has_path-apart :
    (p : LogicalPath) (fs : List File) → has_path p fs ≡ false → All (λ g. g.logical_path ≢ p) fs
has_path-apart p [] h = tt
has_path-apart p (f ∷ fs) h =
    (λ e. ground (arith, ==_iff f.logical_path p), has_path-apart p fs (ground arith))

pub DistinctPaths-of_repeats : (fs : List File) → repeats fs ≡ false → DistinctPaths fs
DistinctPaths-of_repeats [] h = tt
DistinctPaths-of_repeats (f ∷ fs) h =
    (has_path-apart f.logical_path fs (ground arith), DistinctPaths-of_repeats fs (ground arith))
