-- ===== src/Tests/Paths.antt =====
-- Runs of the resolver, of the timestamps, and of what is known of a file.
use storm_tape.Prelude.{ℕ, ◌≡◌, refl, ◌⊎◌, Bool, true, some, [], ◌∷◌, arith}
use storm_tape.Model.{StageRequest, File, submitted, completed}
use storm_tape.Path.{
  text, path_eq, path_lt, is_absolute, lexically_normal, append, lexically_relative,
}
use storm_tape.Algorithm.{sort}
use storm_tape.Prelude.{text_dec}
use storm_tape.Resolver.{resolve, prefix_match}
use storm_tape.Resolver.Resolve.{Resolved, IsValidAreas, resolve-IsLongest}
use storm_tape.Stage.{update_timestamps}
use storm_tape.Stage.Update.{IsUpdate, update_timestamps-IsUpdate}
use storm_tape.Service.Files.{refresh}
use storm_tape.Service.Refresh.{moved, verdict, refresh-eq-verdict}
use storm_tape.Config.{check_areas, loaded}
use storm_tape.Config.Checks.{check_areas-IsValidAreas}
use storm_tape.Tests.{areas, areas-IsValid, on_tape, a_file}

resolved_deep : resolve areas (text "/a/c/x") ≡ some (text "/mnt/cms/x")
unfolding resolve is_absolute path_eq lexically_normal prefix_match lexically_relative append
resolved_deep = refl

resolve-IsLongest_example : Resolved areas (text "/a/c/x") (resolve areas (text "/a/c/x"))
unfolding is_absolute path_eq lexically_normal
resolve-IsLongest_example = resolve-IsLongest areas (text "/a/c/x") areas-IsValid refl refl

abbrev over : File
over = record (a_file (text "/a/x") (text "/mnt/x")) {
  state = completed;
  started_at = 3;
  finished_at = 8;
}

abbrev finished : StageRequest
finished = record { files = over ∷ []; created_at = 1; started_at = 0; completed_at = 0 }

update_timestamps-IsUpdate_example :
    (s : StageRequest) × (u : Bool) × (update_timestamps finished ≡ some (s, u))
    × IsUpdate finished s
    × ((u ≡ true) ⊎ (s ≡ finished))
update_timestamps-IsUpdate_example =
    update_timestamps-IsUpdate finished (tt, tt) (λ e. ground arith)

refresh-eq-verdict_example :
    refresh on_tape 9 (a_file (text "/a/x") (text "/mnt/x"))
    ≡ moved (a_file (text "/a/x") (text "/mnt/x")) 9 (
        verdict submitted
          (on_tape.is_in_progress (text "/mnt/x"))
          (on_tape.file_size_info (text "/mnt/x")))
refresh-eq-verdict_example = refresh-eq-verdict on_tape 9 (a_file (text "/a/x") (text "/mnt/x"))

abbrev same : ℕ → ℕ
same n = n

accepted : check_areas same areas ≡ loaded areas
unfolding check_areas path_lt path_eq is_absolute sort text_dec
accepted = refl

check_areas-IsValidAreas_example : IsValidAreas areas
check_areas-IsValidAreas_example =
    check_areas-IsValidAreas same areas areas accepted
      ((λ e. ground arith), ((λ e. ground arith), tt))
