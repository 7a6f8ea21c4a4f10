-- ===== src/AccessLog.antt =====
-- access_logger.cpp: the line of the access log for one request. The time, formatted by fmt, is a
-- parameter. The texts of the headers are empty where a header is missing.
pub mod Length
use storm_tape.Prelude.{
  ℕ, ◌+◌, ◌-◌, Bool, true, false, ◌&&◌, ◌||◌, List, [], ◌∷◌, ◌++◌, Text, ◌==◌, eqb, ltb, leb,
  length, all, if◌then◌else◌,
}
use storm_tape.Path.{text}
use storm_tape.Model.{File, LogicalPath, StageId}
use storm_tape.Config.{ℤ, pos, negsuc}
use storm_tape.Http.{quoted_by}
use storm_tape.Http.Numbers.{decimal}

-- AccessLogger::context
pub record Context : Type 0 where
  pub operation : Text
  pub stage_id : StageId
  pub files : List File

abbrev pub new_context : Context
new_context = record { operation = text "-"; stage_id = text "-"; files = [] }

-- X and x, Y and y are not among them.
abbrev acceptable : Text
acceptable =
    text "ABCDEFGHIJKLMNOPQRSTUVWZ" ++ (text "abcdefghijklmnopqrstuvwz" ++ text "0123456789")

is_among : Text → ℕ → Bool
is_among [] c = false
is_among (d ∷ ds) c = eqb d c || is_among ds c

unfoldable pub acceptable_request_id : Text → Bool
unfolding is_among
acceptable_request_id id = ltb 0 (length id) && (leb (length id) 32 && all (is_among acceptable) id)

abbrev request_id : Text → Text
request_id id = if acceptable_request_id id then id else text "-"

abbrev pub quoted : Text → Text
quoted = quoted_by b'"'

principal : Text → Text → Text
unfolding quoted_by
principal [] [] = text "-"
principal [] (c ∷ cs) = quoted (c ∷ cs)
principal (c ∷ cs) voms_user = c ∷ cs

abbrev pub minus : ℤ → ℕ → ℤ
minus (pos a) b = if leb b a then pos (a - b) else negsuc (b - a - 1)
minus (negsuc a) b = negsuc (a + b)

-- `n > space`
abbrev pub exceeds : ℕ → ℤ → Bool
exceeds n (pos s) = ltb s n
exceeds n (negsuc s) = true

abbrev pub ellipsis : Text
ellipsis = text "..."

-- What is written for one file: its path, or the ellipsis.
abbrev pub shown : Text → ℕ → ℤ → Text
shown qs comma space_left = if exceeds (length qs + comma) space_left then ellipsis else qs

-- The rounds of the loop after the first, each of which writes a comma.
unfoldable pub more_files : ℤ → List File → Text
unfolding quoted_by
more_files space_left [] = []
more_files space_left (f ∷ fs) =
    let qs = shown (quoted f.logical_path) 1 space_left in
    let rest = more_files (minus space_left (length qs)) fs in
    b',' ∷ (if qs == ellipsis then qs else qs ++ rest)

pub first_file : ℤ → List File → Text
unfolding more_files
first_file space_left [] = []
first_file space_left (f ∷ fs) =
    let qs = shown (quoted f.logical_path) 0 space_left in
    if qs == ellipsis then qs else qs ++ more_files (minus space_left (length qs)) fs

unfoldable pub files : List File → ℤ → Text
unfolding first_file
files fs space_left = b'[' ∷ (first_file (minus space_left 6) fs ++ (b']' ∷ []))

names_stage : Text → Bool
names_stage operation =
    operation == text "STAGE"
    || (operation == text "STATUS"
        || (operation == text "CANCEL"
            || (operation == text "RELEASE" || operation == text "DELETE")))

abbrev pub max_line_length : ℕ
max_line_length = 2048

-- The line up to the files.
unfoldable pub line_start : Text → Text → Text → Text → ℕ → Context → Text
unfolding principal names_stage decimal
line_start timestamp id sub voms_user code ctx =
    timestamp
    ++ (b' '
        ∷ (request_id id
            ++ (b' '
                ∷ (principal sub voms_user
                    ++ (b' '
                        ∷ (ctx.operation
                            ++ (b' '
                                ∷ (decimal code
                                    ++ (if names_stage ctx.operation
                                        then b' ' ∷ ctx.stage_id
                                        else [])))))))))

-- For a stage request, the line with its files.
unfoldable pub with_files : Context → Text → Text
with_files ctx start =
    if ctx.operation == text "STAGE"
    then start ++ (b' ' ∷ files ctx.files (minus (pos max_line_length) (length start + 1)))
    else start

-- AccessLogger::after_handle, without the end of the line.
unfoldable pub after_handle : Text → Text → Text → Text → ℕ → Context → Text
unfolding with_files
after_handle timestamp id sub voms_user code ctx =
    with_files ctx (line_start timestamp id sub voms_user code ctx)
