-- ===== src/Database/Valid.antt =====
-- The rows stay well formed and the keys unique: the statements of the service allow for it.
use storm_tape.Prelude.{◌<◌, ◌≡◌, refl, some, subst}
use storm_tape.Model.{PhysicalPath, State, TimePoint, cancelled}
use storm_tape.Database.Session.{FileEntity}
use storm_tape.Database.Sql.{physical_update}
use storm_tape.Database.Rows.{
  IsValid, IsGentle, update_files-IsValid, insert_file-IsValid, insert_stage-IsValid,
  StageKeys-replace, StageKeys-keep, FileKeys-keep, rows-keep,
}
use storm_tape.Database.Gentle.{Gentle, physical_update-Gentle, finish-IsGentle}
use storm_tape.Database.Closed.{Closed}

pub moved_IsGentle :
    (p : PhysicalPath) (s : State) (tp : TimePoint) (g : FileEntity → FileEntity)
    → 0 < tp
    → physical_update p s tp ≡ some g
    → IsGentle g
moved_IsGentle p s tp g h e = subst Gentle e (physical_update-Gentle p s tp h)

pub IsValid-Closed : Closed IsValid
IsValid-Closed = record {
  put_stage = insert_stage-IsValid;
  put_file = λ f first t t' e owned. insert_file-IsValid f first.0 t t' e;
  cancel = λ id p tp h t. update_files-IsValid (finish-IsGentle _ cancelled tp refl h) t _ refl;
  move = λ p s tp g h e t. update_files-IsValid (moved_IsGentle p s tp g h e) t _ refl;
  replace = λ entity t v. record {
    rows = v.rows;
    file_keys = v.file_keys;
    stage_keys = StageKeys-replace entity t.stages v.stage_keys;
  };
  drop_files = λ q t v. record {
    rows = rows-keep q t.files v.rows;
    file_keys = FileKeys-keep q t.files v.file_keys;
    stage_keys = v.stage_keys;
  };
  drop_stages = λ id t none_left v. record {
    rows = v.rows;
    file_keys = v.file_keys;
    stage_keys = StageKeys-keep _ t.stages v.stage_keys;
  };
}
