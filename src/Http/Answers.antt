-- ===== src/Http/Answers.antt =====
-- The answers of the route that cancels, when no statement of the database fails.
use storm_tape.Prelude.{◌≡◌, refl, ap, Option, none, some, List, [], ◌∷◌, Text}
use storm_tape.Model.{TimePoint, StageId, LogicalPath, StageRequest}
use storm_tape.Path.{text}
use storm_tape.Database.Session.{World, Result, ok, err, stage_not_found, Db, pure, raise, ◌>>=◌}
use storm_tape.Database.Runs.{IsQuiet, Runs, bind_ok, bind_err}
use storm_tape.Database.Lookup.{find_in}
use storm_tape.Service.{TapeService, cancel}
use storm_tape.Service.Cancel.{
  invalid_paths, cancel_unless, answer, cancel-Runs, cancel-missing_stage,
}
use storm_tape.Http.{Response, empty, problem, reply, paths_reply}
use storm_tape.Http.Requests.{Json, Parsers, paths_from_json}
use storm_tape.Http.Routes.{handled, guarded, or_raise, invalid_json, paths_answer, post_cancel}

pub Runs-guarded :
    (m : Db Response) {w w' : World} (x : Result Response)
    → m w ≡ (x, w')
    → guarded m w ≡ (handled x, w')
unfolding guarded
Runs-guarded m x e = ap (λ (y : Result Response × World). (handled y.0, y.1)) e

module _ (J : Json) (P : Parsers) (T : TapeService) (quiet : IsQuiet T.db) where
  -- The four answers of the route, by what is read from the body and what is stored.
  pub data Answered (id : StageId) (now : TimePoint) (w : World)
      : Option (List LogicalPath) → Option StageRequest → Response × World → Type 0 where
    not_understood :
        (o : Option StageRequest)
        → Answered id now w none o (reply 400 (problem 400 (text "Invalid JSON")), w)
    not_found :
        (paths : List LogicalPath) (w' : World)
        → w'.tables ≡ w.tables
        → Answered id now w (some paths) none (reply 404 (problem 404 (text "Stage not found")), w')
    done :
        (paths : List LogicalPath) (r : StageRequest) (w' : World)
        → invalid_paths paths r ≡ []
        → w'.tables ≡ cancel_unless [] id paths now w.tables
        → Answered id now w (some paths) (some r) (reply 200 empty, w')
    declined :
        (paths : List LogicalPath) (r : StageRequest) (w' : World) (p : LogicalPath)
        (bad : List LogicalPath)
        → invalid_paths paths r ≡ p ∷ bad
        → w'.tables ≡ w.tables
        → Answered id now w (some paths) (some r) (paths_reply (answer id (p ∷ bad)), w')

  -- If no statement fails, the route answers a body that it does not understand with a 400, and a stage
  -- that is not stored with a 404; then nothing changes. Otherwise it answers an empty 200 if no path is
  -- refused, and then the files are cancelled; and if one is, what to_crow_response makes of the refused
  -- paths, a 400 whose message need not name them all, and then nothing changes.
  pub post_cancel-Answered :
      (id : StageId) (body : Text) (now : TimePoint) (w : World)
      → (resp : Response) × (w' : World) × (post_cancel J P T id body now w ≡ (ok resp, w'))
        × Answered id now w (paths_from_json J body) (find_in id w.tables) (resp, w')
  unfolding post_cancel pure raise ◌>>=◌
  post_cancel-Answered id body now w = by_body (paths_from_json J body)
    where
      handler : Option (List LogicalPath) → Db Response
      handler o = or_raise invalid_json o >>= λ paths.
          cancel T id paths now >>= λ resp. pure (paths_answer resp)

      by_bad :
          (paths : List LogicalPath) (r : StageRequest) (bad : List LogicalPath)
          → invalid_paths paths r ≡ bad
          → Runs (cancel T id paths now) w (answer id bad) (cancel_unless bad id paths now w.tables)
          → (resp : Response) × (w' : World) × (guarded (handler (some paths)) w ≡ (ok resp, w'))
            × Answered id now w (some paths) (some r) (resp, w')
      by_bad paths r [] e c = (
        reply 200 empty,
        c.after,
        Runs-guarded (handler (some paths)) (ok (reply 200 empty))
            (bind_ok (cancel T id paths now) _ w c.after (answer id []) c.result),
        done paths r c.after e c.tables,
      )
      by_bad paths r (p ∷ bad) e c = (
        paths_reply (answer id (p ∷ bad)),
        c.after,
        Runs-guarded (handler (some paths)) (ok (paths_reply (answer id (p ∷ bad))))
            (bind_ok (cancel T id paths now) _ w c.after (answer id (p ∷ bad)) c.result),
        declined paths r c.after p bad e c.tables,
      )

      by_stage :
          (paths : List LogicalPath) (o : Option StageRequest)
          → find_in id w.tables ≡ o
          → (resp : Response) × (w' : World) × (guarded (handler (some paths)) w ≡ (ok resp, w'))
            × Answered id now w (some paths) o (resp, w')
      by_stage paths none e =
          let thrown = (cancel-missing_stage T quiet id paths now w e).0 in
          (
            reply 404 (problem 404 (text "Stage not found")),
            thrown.after,
            Runs-guarded (handler (some paths)) (err (stage_not_found id)) (
                bind_err (cancel T id paths now) _ w thrown.after (stage_not_found id)
                  thrown.result),
            not_found paths thrown.after thrown.tables,
          )
      by_stage paths (some r) e =
          by_bad paths r (invalid_paths paths r) refl (cancel-Runs T quiet id paths now w r e)

      by_body :
          (o : Option (List LogicalPath))
          → (resp : Response) × (w' : World) × (guarded (handler o) w ≡ (ok resp, w'))
            × Answered id now w o (find_in id w.tables) (resp, w')
      by_body none = (
        reply 400 (problem 400 (text "Invalid JSON")),
        w,
        refl,
        not_understood (find_in id w.tables),
      )
      by_body (some paths) = by_stage paths (find_in id w.tables) refl
