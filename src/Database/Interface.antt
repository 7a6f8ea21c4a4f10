-- ===== src/Database/Interface.antt =====
-- class Database of database.hpp, and class SociDatabase that implements it. The first two methods are
-- private: update(stage_update) calls them.
use storm_tape.Prelude.{ℕ, Bool, Option, List}
use storm_tape.Model.{TimePoint, StageId, LogicalPath, PhysicalPath, State, StageRequest}
use storm_tape.Database
use storm_tape.Database.{StageUpdate}
use storm_tape.Database.Session.{Engine, StageEntity, Db}

pub record Interface : Type 0 where
  pub update_path_states : List (PhysicalPath × State) → TimePoint → Db Bool
  pub update_stage_entity : StageEntity → Db Bool
  pub insert : StageId → StageRequest → Db Bool
  pub find : StageId → Db (Option StageRequest)
  pub find_incomplete_stages : Db (List StageId)
  pub update_state : StageId → LogicalPath → State → Db Bool
  pub update_logical : StageId → LogicalPath → State → TimePoint → Db Bool
  pub update_physical : PhysicalPath → State → TimePoint → Db Bool
  pub update_all_logical : StageId → List LogicalPath → State → TimePoint → Db Bool
  pub update_all_physical : List PhysicalPath → State → TimePoint → Db Bool
  pub update_stage : StageUpdate → Db Bool
  pub erase : StageId → Db Bool
  pub count_files : State → Db ℕ
  pub get_files : State → ℕ → Db (List PhysicalPath)

abbrev pub soci_database : Engine → Interface
soci_database E = record {
  update_path_states = Database.update_path_states E;
  update_stage_entity = Database.update_stage_entity E;
  insert = Database.insert E;
  find = Database.find E;
  find_incomplete_stages = Database.find_incomplete_stages E;
  update_state = Database.update_state E;
  update_logical = Database.update_logical E;
  update_physical = Database.update_physical E;
  update_all_logical = Database.update_all_logical E;
  update_all_physical = Database.update_all_physical E;
  update_stage = Database.update_stage E;
  erase = Database.erase E;
  count_files = Database.count_files E;
  get_files = Database.get_files E;
}
