-- ===== src/Start/Usable.antt =====
-- What a service that is started can rely on.
use storm_tape.Prelude.{
  ℕ, ◌≤◌, ◌≡◌, refl, sym, ap, ◌∙◌, Bool, true, false, Option, none, some, List, Text, All,
  if◌then◌else◌, arith,
}
use mathlib.Core.Option.{some-injective}
use storm_tape.Model.{Configuration}
use storm_tape.Storage.Local.{local_storage}
use storm_tape.Database.Session.{Engine}
use storm_tape.Config.{Document, Loaded, loaded, refused}
use storm_tape.Config.Load.{load_configuration}
use storm_tape.Config.Bounds.{IsRoot, load_configuration-IsUsable}
use storm_tape.Service.{TapeService}
use storm_tape.Start.{
  CommandLine, Surroundings, Outcome, exit_success, serves, config_file, service_of, open_session,
  configured, read_document, parsed, main,
}

abbrev served : Outcome → Option TapeService
served (serves T level) = some T
served _ = none

abbrev log_level_of : Outcome → ℕ
log_level_of (serves T level) = level
log_level_of _ = 0

module _ (S : Surroundings) where
  -- A service that serves, from the configuration that was read.
  record Started (T : TapeService) (level : ℕ) : Type 0 where
    pub node : Document
    pub db : Engine
    pub read : load_configuration S.toupper S.kernel.status S.probe node ≡ loaded T.config
    pub made : T ≡ service_of S T.config db
    pub logs : level ≡ T.config.log_level

  open_session-Started :
      (node : Document) (c : Configuration) (o : Option Engine) (T : TapeService) (level : ℕ)
      → load_configuration S.toupper S.kernel.status S.probe node ≡ loaded c
      → open_session S c o ≡ serves T level
      → Started T level
  unfolding open_session
  open_session-Started node c none T level e q = absurd (ground arith)
  open_session-Started node c (some db) T level e q =
      let same : service_of S c db ≡ T = some-injective _ _ (ap served q) in
      let config : c ≡ T.config = ap (λ T. T.config) same in
      record {
        node = node;
        db = db;
        read = e ∙ ap loaded config;
        made = sym same ∙ ap (λ c. service_of S c db) config;
        logs = sym (ap log_level_of q) ∙ ap (λ c. c.log_level) config;
      }

  configured-Started :
      (node : Document) (c : Loaded Configuration) (T : TapeService) (level : ℕ)
      → load_configuration S.toupper S.kernel.status S.probe node ≡ c
      → configured S c ≡ serves T level
      → Started T level
  unfolding configured
  configured-Started node (refused r) T level e q = absurd (ground arith)
  configured-Started node (loaded c) T level e q = open_session-Started node c S.session T level e q

  read_document-Started :
      (o : Option Document) (T : TapeService) (level : ℕ)
      → read_document S o ≡ serves T level
      → Started T level
  unfolding read_document
  read_document-Started none T level q = absurd (ground arith)
  read_document-Started (some node) T level q = configured-Started node _ T level refl q

  parsed-Started :
      (o : Option CommandLine) (T : TapeService) (level : ℕ)
      → parsed S o ≡ serves T level
      → Started T level
  unfolding parsed
  parsed-Started none T level q = absurd (ground arith)
  parsed-Started (some options) T level q = go options.help q
    where
      go :
          (b : Bool)
          → (if b then exit_success else read_document S (S.document (config_file options.config)))
            ≡ serves T level
          → Started T level
      go true e = absurd (ground arith)
      go false e = read_document-Started (S.document (config_file options.config)) T level e

  -- If the program serves, its service asks LocalStorage on the kernel that it runs on, its port is from
  -- 1 to 65535, its log level from 0 to 4 and that of the configuration, and its roots are absolute paths
  -- of directories.
  pub main-IsUsable :
      (arguments : List Text) (T : TapeService) (level : ℕ)
      → main S arguments ≡ serves T level
      → (T.storage ≡ local_storage T.kernel)
        × (T.kernel ≡ S.kernel)
        × (level ≡ T.config.log_level)
        × (1 ≤ T.config.port)
        × (T.config.port ≤ 65535)
        × (T.config.log_level ≤ 4)
        × All (IsRoot S.kernel.status S.probe) T.config.storage_areas
  unfolding main service_of
  main-IsUsable arguments T level q =
      let s = parsed-Started (S.parse arguments) T level q in
      let (low, high, log, roots) =
        load_configuration-IsUsable S.kernel.status S.probe S.toupper s.node T.config s.read in
      let kernel : T.kernel ≡ S.kernel = ap (λ T. T.kernel) s.made in
      (
        ap (λ T. T.storage) s.made ∙ ap local_storage (sym kernel),
        kernel,
        s.logs,
        low,
        high,
        log,
        roots,
      )
