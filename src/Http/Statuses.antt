-- ===== src/Http/Statuses.antt =====
-- The answers of the route that reports a stage, when no statement of the database fails.
use storm_tape.Prelude.{◌≡◌, ◌≢◌, refl, ap, subst, ◌∙◌, Option, none, some, []}
use storm_tape.Model.{TimePoint, StageId, StageRequest}
use storm_tape.Path.{text}
use storm_tape.Database
use storm_tape.Database.Session.{World, ok, err, stage_not_found, pure, ◌>>=◌}
use storm_tape.Database.Rows.{IsValid}
use storm_tape.Database.Owned.{IsOwned}
use storm_tape.Database.Runs.{IsQuiet, Runs, Throws, Throws-bind, Throws-raise, bind_ok, bind_err}
use storm_tape.Database.Lookup.{find_in, find-Runs}
use storm_tape.Database.Abstract.{forget}
use storm_tape.Database.Abstract.Finding.{forget_found}
use storm_tape.Stage.Update.{IsUpdate}
use storm_tape.Service.{TapeService, status, status_of}
use storm_tape.Service.Refresh.{refreshed}
use storm_tape.Service.Changes.{DistinctPhysical}
use storm_tape.Service.Persisting.{status-persists}
use storm_tape.Http.{Response, problem, reply, status_reply}
use storm_tape.Http.Requests.{Json, Parsers}
use storm_tape.Http.Routes.{get_status}
use storm_tape.Http.Answers.{Runs-guarded}

-- A stage that can be reported: it has files, on different physical paths.
abbrev pub IsReportable : Option StageRequest → Type 0
IsReportable none = Unit
IsReportable (some r) = (r.files ≢ []) × DistinctPhysical r.files

module _ (J : Json) (P : Parsers) (T : TapeService) (quiet : IsQuiet T.db) where
  -- The answers of the route, by what is stored.
  pub data Reported (id : StageId) (now : TimePoint) (w : World)
      : Option StageRequest → Response × World → Type 0 where
    missing :
        (w' : World)
        → w'.tables ≡ w.tables
        → Reported id now w none (reply 404 (problem 404 (text "Stage not found")), w')
    shown :
        (r s : StageRequest) (w' : World)
        → IsUpdate (refreshed (T.storage w.set_calls) now r) s
        → forget_found (find_in id w'.tables) ≡ some (forget s)
        → Reported id now w (some r) (status_reply (record { id = id; stage = s }), w')

  status-missing :
      (id : StageId) (now : TimePoint) (w : World)
      → find_in id w.tables ≡ none
      → Throws (status T id now) w (stage_not_found id)
  unfolding status status_of
  status-missing id now w e =
      Throws-bind _ _ w none w.tables _ refl
        (subst (λ o. Runs (Database.find T.db id) w o w.tables) e (find-Runs T.db quiet id w))
        λ w' _ _. Throws-raise w' (stage_not_found id)

  -- If no statement fails, on valid tables where no file is without its stage, the route answers 404 for
  -- a stage that is not stored, and then nothing changes. A stage that has files, on different physical
  -- paths, it answers as the storage knows its files, sorted by state, and with its times brought up to
  -- date; and this stage is what is found from then on, up to the order of its files.
  pub get_status-Reported :
      (id : StageId) (now : TimePoint) (w : World)
      → IsValid w.tables
      → IsOwned w.tables
      → IsReportable (find_in id w.tables)
      → (resp : Response) × (w' : World) × (get_status J P T id now w ≡ (ok resp, w'))
        × Reported id now w (find_in id w.tables) (resp, w')
  unfolding get_status pure
  get_status-Reported id now w valid owned reportable =
      by_stage (find_in id w.tables) refl reportable
    where
      by_stage :
          (o : Option StageRequest)
          → find_in id w.tables ≡ o
          → IsReportable o
          → (resp : Response) × (w' : World) × (get_status J P T id now w ≡ (ok resp, w'))
            × Reported id now w o (resp, w')
      by_stage none e h =
          let thrown = status-missing id now w e in
          (
            reply 404 (problem 404 (text "Stage not found")),
            thrown.after,
            Runs-guarded (status T id now >>= λ resp. pure (status_reply resp))
                (err (stage_not_found id))
                (bind_err (status T id now) _ w thrown.after (stage_not_found id) thrown.result),
            missing thrown.after thrown.tables,
          )
      by_stage (some r) e h =
          let (s, t, ran, found, up) = status-persists T quiet id now w r e h.0 h.1 valid owned in
          (
            status_reply (record { id = id; stage = s }),
            ran.after,
            Runs-guarded (status T id now >>= λ resp. pure (status_reply resp))
                (ok (status_reply (record { id = id; stage = s })))
                (bind_ok (status T id now) _ w ran.after (record { id = id; stage = s })
                  ran.result),
            shown r s ran.after up (ap (λ t'. forget_found (find_in id t')) ran.tables ∙ found),
          )
