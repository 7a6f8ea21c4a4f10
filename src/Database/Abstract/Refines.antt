-- ===== src/Database/Abstract/Refines.antt =====
-- Sequences of calls on a database that does what the abstract store promises; SociDatabase does, when
-- no statement fails.
use storm_tape.Prelude.{◌≡◌, refl, sym, ap, subst, ◌∙◌, List, [], ◌∷◌}
use storm_tape.Database.Interface.{Interface, soci_database}
use storm_tape.Database.Session.{Engine, World, Tables, Db, pure, ◌>>=◌}
use storm_tape.Database.Runs.{IsQuiet, Runs, Runs-pure, Runs-then}
use storm_tape.Database.Owned.{IsOwned}
use storm_tape.Database.Abstract.{Store, Op, Reply, view, promise}
use storm_tape.Database.Abstract.Methods.{perform, Refines, perform-Refines}

module _ (D : Interface) where
  unfoldable pub perform_all : List Op → Db (List Reply)
  unfolding perform
  perform_all [] = pure []
  perform_all (op ∷ ops) = do r ← perform D op; rs ← perform_all ops; pure (r ∷ rs)

unfoldable pub promise_all : List Op → Store → List Reply × Store
unfolding promise
promise_all [] m = ([], m)
promise_all (op ∷ ops) m =
    let rest = promise_all ops (promise op m).1 in ((promise op m).0 ∷ rest.0, rest.1)

-- The answers to the operations, and the store that they leave, are those of the abstract store `m`.
abbrev pub Ends : Interface → List Op → World → Store → Type 0
Ends D ops w m =
    (t : Tables) × Runs (perform_all D ops) w (promise_all ops m).0 t
    × (view t ≡ (promise_all ops m).1)
    × IsOwned t

-- What a client relies on: each method does what is promised.
pub record IsDatabase (D : Interface) : Type 0 where
  pub refines : (op : Op) (w : World) → IsOwned w.tables → Refines D op w

module _ (D : Interface) (law : IsDatabase D) where
  pub calls-Refine : (ops : List Op) (w : World) → IsOwned w.tables → Ends D ops w (view w.tables)
  unfolding perform_all promise_all
  calls-Refine [] w h = (w.tables, Runs-pure w [], refl, h)
  calls-Refine (op ∷ ops) w h =
      let (t, runs, seen, owned) = law.refines op w h in
      let (t', runs', seen', owned') =
        subst (Ends D ops runs.after) (ap view runs.tables ∙ seen)
          (calls-Refine ops runs.after (subst IsOwned (sym runs.tables) owned)) in
      (
        t',
        Runs-then _ _ w _ _ t t' runs (
            Runs-then _ _ runs.after _ _ t' t' runs'
              (subst (Runs _ runs'.after _) runs'.tables (Runs-pure runs'.after _))),
        seen',
        owned',
      )

pub soci_database-IsDatabase : (E : Engine) → IsQuiet E → IsDatabase (soci_database E)
soci_database-IsDatabase E quiet = record { refines = perform-Refines E quiet }

-- With no failing statement, any sequence of the methods of SociDatabase on tables where no file is
-- without its stage answers, up to the order of the files, as the abstract store does, and the tables
-- stand for the abstract store that the sequence leaves.
pub perform_all-Refines :
    (E : Engine) (quiet : IsQuiet E) (ops : List Op) (w : World)
    → IsOwned w.tables
    → Ends (soci_database E) ops w (view w.tables)
perform_all-Refines E quiet = calls-Refine (soci_database E) (soci_database-IsDatabase E quiet)
