-- ===== src/Stage.antt =====
-- stage_request.cpp: StageRequest::update_timestamps. `none` stands for undefined behaviour: front(),
-- back() or the end iterator of an empty vector is dereferenced. The asserts are not modelled; that
-- they hold is a theorem about the stored rows.
pub mod Timestamps
pub mod Starting
pub mod Ending
pub mod Update
use storm_tape.Prelude.{
  ℕ, Bool, true, false, ◌&&◌, not, Option, none, some, List, [], ◌∷◌, eqb, ltb, if◌then◌else◌,
}
use storm_tape.Model.{TimePoint, File, State, submitted, is_final, StageRequest, to_underlying}
use storm_tape.Algorithm.{min_element, max_element, from_partition_point}

abbrev pub is_submitted : State → Bool
is_submitted s = eqb (to_underlying s) (to_underlying submitted)

-- The order by which the files are sorted.
abbrev pub by_state : File → File → Bool
by_state f g = ltb (to_underlying f.state) (to_underlying g.state)

unfoldable pub back : List File → Option File
back [] = none
back (f ∷ []) = some f
back (f ∷ g ∷ fs) = back (g ∷ fs)

unfoldable pub front : List File → Option File
front [] = none
front (f ∷ fs) = some f

abbrev pub started_lt : File → File → Bool
started_lt f g = ltb f.started_at g.started_at

abbrev pub finished_lt : File → File → Bool
finished_lt f g = ltb f.finished_at g.finished_at

-- std::min_element, dereferenced
unfoldable pub first_started : List File → Option TimePoint
unfolding min_element
first_started [] = none
first_started (f ∷ fs) = some (min_element started_lt f fs).started_at

unfoldable pub last_finished : List File → Option TimePoint
unfolding max_element
last_finished [] = none
last_finished (f ∷ fs) = some (max_element finished_lt f fs).finished_at

with_start : StageRequest → Option TimePoint → Option (StageRequest × Bool)
with_start r none = none
with_start r (some t) = some (record r { started_at = t }, true)

-- The first `if`, once files.back() is read.
pub start_from : StageRequest → Option File → Option (StageRequest × Bool)
unfolding with_start
start_from r none = none
start_from r (some last) =
    if is_submitted last.state
    then some (r, false)
    else with_start r (first_started (from_partition_point (λ f. is_submitted f.state) r.files))

unfoldable pub update_started : StageRequest → Option (StageRequest × Bool)
unfolding start_from
update_started r = if eqb r.started_at 0 then start_from r (back r.files) else some (r, false)

with_completion : StageRequest → Option TimePoint → Option (StageRequest × Bool)
with_completion r none = none
with_completion r (some t) = some (record r { completed_at = t }, true)

-- The second `if`, once files.front() is read.
pub complete_from : StageRequest → Bool → Option File → Option (StageRequest × Bool)
unfolding with_completion
complete_from r updated none = none
complete_from r updated (some first) =
    if is_final first.state then with_completion r (last_finished r.files) else some (r, updated)

unfoldable pub update_completed : Option (StageRequest × Bool) → Option (StageRequest × Bool)
unfolding complete_from
update_completed none = none
update_completed (some (r, updated)) =
    if eqb r.completed_at 0 then complete_from r updated (front r.files) else some (r, updated)

unfoldable pub update_timestamps : StageRequest → Option (StageRequest × Bool)
unfolding update_started update_completed back front first_started last_finished
    from_partition_point
update_timestamps r = update_completed (update_started r)
