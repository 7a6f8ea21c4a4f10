-- ===== src/Start.antt =====
-- main.cpp: from the command line and the configuration to the loop of the server. What
-- boost::program_options, the files and soci make of their arguments are parameters.
pub mod Usable
use storm_tape.Prelude.{ℕ, Bool, Option, none, some, List, Text, if◌then◌else◌}
use storm_tape.Path.{text}
use storm_tape.Model.{PhysicalPath, Configuration}
use storm_tape.Host.{Kernel}
use storm_tape.Storage.Local.{local_storage}
use storm_tape.Database.Session.{Engine}
use storm_tape.Config.{Document, Loaded, loaded, refused}
use storm_tape.Config.Load.{Probe, load_configuration}
use storm_tape.Service.{TapeService}

-- The options that the program knows.
pub record CommandLine : Type 0 where
  pub help : Bool
  pub config : Option Text

pub record Surroundings : Type 0 where
  -- parse_command_line, `none` where it throws
  pub parse : List Text → Option CommandLine
  -- the YAML document in a file, `none` where it cannot be opened or YAML::Load throws
  pub document : Text → Option Document
  -- the session, once the tables are created; `none` where that throws
  pub session : Option Engine
  pub kernel : Kernel
  pub toupper : ℕ → ℕ
  pub probe : PhysicalPath → Probe

-- What main comes to: an exit, or the loop of the server with this service and log level.
pub data Outcome : Type 0 where
  exit_success : Outcome
  exit_failure : Outcome
  serves : TapeService → ℕ → Outcome

-- ->default_value("storm-tape.conf")
abbrev pub config_file : Option Text → Text
config_file none = text "storm-tape.conf"
config_file (some file) = file

module _ (S : Surroundings) where
  pub service_of : Configuration → Engine → TapeService
  service_of config db = record {
    config = config;
    db = db;
    storage = local_storage S.kernel;
    kernel = S.kernel;
  }

  pub open_session : Configuration → Option Engine → Outcome
  unfolding service_of
  open_session config none = exit_failure
  open_session config (some db) = serves (service_of config db) config.log_level

  pub configured : Loaded Configuration → Outcome
  unfolding open_session
  configured (refused e) = exit_failure
  configured (loaded config) = open_session config S.session

  pub read_document : Option Document → Outcome
  unfolding configured load_configuration
  read_document none = exit_failure
  read_document (some node) = configured (load_configuration S.toupper S.kernel.status S.probe node)

  pub parsed : Option CommandLine → Outcome
  unfolding read_document
  parsed none = exit_failure
  parsed (some options) =
      if options.help then exit_success else read_document (S.document (config_file options.config))

  unfoldable pub main : List Text → Outcome
  unfolding parsed
  main arguments = parsed (S.parse arguments)
