-- ===== src/Http/Serving.antt =====
-- The server as its clients see it: a history of HTTP requests, whatever their bodies are. Each acts on
-- the tables as one call of the service does, or not at all.
use storm_tape.Prelude.{◌<◌, ◌≡◌, refl, sym, subst, ◌∙◌, Option, none, some, List, [], ◌∷◌, All}
use storm_tape.Model.{TimePoint, StageId, LogicalPath, File}
use storm_tape.Database.Session.{
  Error, Result, ok, err, Db, World, Tables, pure, raise, continue, ◌>>=◌,
}
use storm_tape.Database.Rows.{IsValid}
use storm_tape.Database.Closed.{Closed}
use storm_tape.Database.Valid.{IsValid-Closed}
use storm_tape.Database.Owned.{IsOwned, IsOwned-Closed}
use storm_tape.Service.{TapeService, erase, ready_take_over}
use storm_tape.Service.Calls.{
  Call, stages, statuses, cancels, erases, releases, archives, readies, takes_over, asks, IsSane,
  serve, serve-Keeps,
}
use storm_tape.Http.{Response, stage_reply}
use storm_tape.Http.Requests.{
  Json, Parsers, files_from_json, paths_from_json, get_hostinfo, from_body_params,
  from_query_params,
}
use storm_tape.Http.Bodies.{files_from_json-IsNew}
use storm_tape.Http.Routes.{
  guarded, or_raise, post_stage, get_status, post_cancel, delete_stage, post_release,
  post_archiveinfo, get_ready, put_tasks, get_in_progress,
}
use storm_tape.Http.Contexts.{
  Request, post_stage_request, status_request, cancel_request, delete_request, release_request,
  archiveinfo_request, ready_request, tasks_request, in_progress_request, answer,
}

-- The clock of a request is past the epoch.
abbrev pub IsTimely : Request → Type 0
IsTimely (post_stage_request id now clock body forwarded host) = (p : LogicalPath) → 0 < clock p
IsTimely (status_request id now) = 0 < now
IsTimely (cancel_request id body now) = 0 < now
IsTimely (tasks_request body now) = 0 < now
IsTimely _ = Unit

-- What is made of what was read.
abbrev fmap : {A B : Type 0} → (A → B) → Option A → Option B
fmap f none = none
fmap f (some a) = some (f a)

-- Steps that do not change the world.
bind-world :
    {A B : Type 0} (m : Db A) (f : A → Db B) (w : World)
    → ((a : A) (w' : World) → (f a w').1 ≡ w')
    → ((m >>= f) w).1 ≡ (m w).1
unfolding ◌>>=◌
bind-world {A} {B} m f w h = go (m w).0 (m w).1
  where
    go : (x : Result A) (w' : World) → (continue x f w').1 ≡ w'
    go (ok a) w' = h a w'
    go (err e) w' = refl

-- The world after what was read is passed on, if it was understood.
abbrev read_world : {A : Type 0} → Option A → (A → World → World) → World → World
read_world none g w = w
read_world (some a) g w = g a w

or_raise-world :
    {A B : Type 0} (e : Error) (o : Option A) (f : A → Db B) (g : A → World → World) (w : World)
    → ((a : A) → (f a w).1 ≡ g a w)
    → ((or_raise e o >>= f) w).1 ≡ read_world o g w
unfolding or_raise ◌>>=◌ raise pure
or_raise-world e none f g w h = refl
or_raise-world e (some a) f g w h = h a

pure-world : {A : Type 0} (a : A) (w : World) → (pure a w).1 ≡ w
unfolding pure
pure-world a w = refl

located-world :
    {A B : Type 0} (e : Error) (o : Option A) (f : A → B) (w : World)
    → ((or_raise e o >>= λ a. pure (f a)) w).1 ≡ w
unfolding or_raise ◌>>=◌ raise pure
located-world e none f w = refl
located-world e (some a) f w = refl

module _ (J : Json) (P : Parsers) (T : TapeService) where
  stage_call : StageId → TimePoint → (LogicalPath → TimePoint) → List File → Call
  stage_call id now clock files =
      stages id clock (record { files = files; created_at = now; started_at = 0; completed_at = 0 })

  -- The call of the service that a request makes, if its body is understood.
  unfoldable pub call_of : Request → Option Call
  unfolding stage_call
  call_of (post_stage_request id now clock body forwarded host) =
      fmap (stage_call id now clock) (files_from_json J body)
  call_of (status_request id now) = some (statuses id now)
  call_of (cancel_request id body now) = fmap (λ ps. cancels id ps now) (paths_from_json J body)
  call_of (delete_request id) = some (erases id)
  call_of (release_request id body) = fmap (releases id) (paths_from_json J body)
  call_of (archiveinfo_request body) = fmap archives (paths_from_json J body)
  call_of ready_request = some readies
  call_of (tasks_request body now) = fmap (λ n. takes_over n now) (from_body_params P body)
  call_of (in_progress_request n precise) =
      let (n_files, exact) = from_query_params P n precise in some (asks n_files exact)

  abbrev pub after_call : Option Call → World → World
  after_call none w = w
  after_call (some c) w = serve T c w

  read-after_call :
      {A : Type 0} (o : Option A) (g : A → Call) (w : World)
      → read_world o (λ a w'. serve T (g a) w') w ≡ after_call (fmap g o) w
  read-after_call none g w = refl
  read-after_call (some a) g w = refl

  -- A route that reads its body, makes one call, and then only makes its response.
  answered-call :
      {A B : Type 0} (e : Error) (o : Option A) (m : A → Db B) (f : B → Db Response) (g : A → Call)
      (w : World)
      → ((a : A) (w' : World) → (m a w').1 ≡ serve T (g a) w')
      → ((b : B) (w' : World) → (f b w').1 ≡ w')
      → ((or_raise e o >>= λ a. m a >>= f) w).1 ≡ after_call (fmap g o) w
  answered-call e o m f g w h k =
      or_raise-world e o (λ a. m a >>= f) (λ a. serve T (g a)) w
        (λ a. bind-world (m a) f w k ∙ h a w)
      ∙ read-after_call o g w

  -- Whatever its body and the statements that fail, a request leaves the tables, the statements issued
  -- and the attributes as its call of the service does, and as they were if there is no call.
  pub answer-call : (r : Request) (w : World) → (answer J P T r w).1 ≡ after_call (call_of r) w
  unfolding answer call_of serve guarded post_stage get_status post_cancel delete_stage post_release
      post_archiveinfo get_ready put_tasks get_in_progress
  answer-call (post_stage_request id now clock body forwarded host) w =
      answered-call _ (files_from_json J body) _ _ (stage_call id now clock) w (λ files w'. refl)
        λ resp w'. located-world _ (get_hostinfo P forwarded host T.config) (stage_reply resp) w'
  answer-call (status_request id now) w = bind-world _ _ w λ a w'. pure-world _ w'
  answer-call (cancel_request id body now) w =
      answered-call _ (paths_from_json J body) _ _ (λ ps. cancels id ps now) w (λ a w'. refl)
        λ b w'. pure-world _ w'
  answer-call (delete_request id) w = bind-world (erase T id) _ w λ a w'. pure-world _ w'
  answer-call (release_request id body) w =
      answered-call _ (paths_from_json J body) _ _ (releases id) w (λ a w'. refl)
        λ b w'. pure-world _ w'
  answer-call (archiveinfo_request body) w =
      answered-call _ (paths_from_json J body) _ _ (archives) w (λ a w'. refl)
        λ b w'. pure-world _ w'
  answer-call ready_request w = bind-world (ready_take_over T) _ w λ a w'. pure-world _ w'
  answer-call (tasks_request body now) w =
      answered-call _ (from_body_params P body) _ _ (λ n. takes_over n now) w (λ a w'. refl)
        λ b w'. pure-world _ w'
  answer-call (in_progress_request n precise) w = bind-world _ _ w λ a w'. pure-world _ w'

  abbrev SaneCall : Option Call → Type 0
  SaneCall none = Unit
  SaneCall (some c) = IsSane c

  fmap-SaneCall :
      {A : Type 0} (o : Option A) (g : A → Call)
      → ((a : A) → o ≡ some a → IsSane (g a))
      → SaneCall (fmap g o)
  fmap-SaneCall none g h = tt
  fmap-SaneCall (some a) g h = h a refl

  call_of-IsSane : (r : Request) → IsTimely r → SaneCall (call_of r)
  unfolding call_of
  call_of-IsSane (post_stage_request id now clock body forwarded host) h =
      fmap-SaneCall (files_from_json J body) (stage_call id now clock)
        λ files e. (h, files_from_json-IsNew J body files e)
  call_of-IsSane (status_request id now) h = h
  call_of-IsSane (cancel_request id body now) h = fmap-SaneCall (paths_from_json J body) _ λ ps e. h
  call_of-IsSane (delete_request id) h = tt
  call_of-IsSane (release_request id body) h = fmap-SaneCall (paths_from_json J body) _ λ ps e. tt
  call_of-IsSane (archiveinfo_request body) h = fmap-SaneCall (paths_from_json J body) _ λ ps e. tt
  call_of-IsSane ready_request h = tt
  call_of-IsSane (tasks_request body now) h = fmap-SaneCall (from_body_params P body) _ λ n e. h
  call_of-IsSane (in_progress_request n precise) h = tt

  -- The server: one request after another.
  unfoldable pub answer_all : List Request → World → World
  unfolding answer
  answer_all [] w = w
  answer_all (r ∷ rs) w = answer_all rs (answer J P T r w).1

  answer-Keeps :
      {Q : Tables → Type 0} (k : Closed Q) (r : Request) (w : World)
      → IsTimely r
      → Q w.tables
      → Q (answer J P T r w).1.tables
  answer-Keeps {Q} k r w h q =
      subst (λ w'. Q w'.tables) (sym (answer-call r w)) (go (call_of r) (call_of-IsSane r h))
    where
      go : (c : Option Call) → SaneCall c → Q (after_call c w).tables
      go none sane = q
      go (some c) sane = serve-Keeps T k c w sane q

  pub answer_all-Keeps :
      {Q : Tables → Type 0} (k : Closed Q) (rs : List Request) (w : World)
      → All IsTimely rs
      → Q w.tables
      → Q (answer_all rs w).tables
  unfolding answer_all
  answer_all-Keeps k [] w h q = q
  answer_all-Keeps k (r ∷ rs) w h q =
      answer_all-Keeps k rs (answer J P T r w).1 h.1 (answer-Keeps k r w h.0 q)

  -- After any HTTP requests, whatever their bodies and headers and whatever statements fail, the tables
  -- are valid if they were: no two rows have one key, a file that is not SUBMITTED has a start time, a
  -- file in a final state has an end time, and no other file has one; and no file is without its stage,
  -- if none was. The clock must be past the epoch.
  pub answer_all-IsValid :
      (rs : List Request) (w : World)
      → All IsTimely rs
      → IsValid w.tables
      → IsOwned w.tables
      → IsValid (answer_all rs w).tables × IsOwned (answer_all rs w).tables
  answer_all-IsValid rs w h v o =
      (answer_all-Keeps IsValid-Closed rs w h v, answer_all-Keeps IsOwned-Closed rs w h o)
