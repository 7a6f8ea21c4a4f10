-- ===== src/AccessLog/Length.antt =====
-- How long a line of the access log can get.
use storm_tape.Prelude.{
  ℕ, ◌+◌, ◌-◌, ◌≤◌, ◌≡◌, ap, ◌⊎◌, refl, Bool, true, false, List, [], ◌∷◌, ◌++◌, Text, ◌==◌, length,
  arith, length-append, inl, inr, ==_iff, if◌then◌else◌,
}
use storm_tape.Path.{text}
use storm_tape.Model.{File}
use storm_tape.Config.{ℤ, pos, negsuc}
use storm_tape.AccessLog.{
  Context, minus, exceeds, ellipsis, shown, quoted, more_files, first_file, files, max_line_length,
  line_start, with_files, after_handle,
}

-- The space that is left, 0 if none is.
abbrev room : ℤ → ℕ
room (pos n) = n
room (negsuc n) = 0

-- What is written is the ellipsis, or it fits.
shown_cases :
    (qs : Text) (comma : ℕ) (s : ℤ)
    → (shown qs comma s ≡ ellipsis) ⊎ (exceeds (length (shown qs comma s) + comma) s ≡ false)
shown_cases qs comma s = go (exceeds (length qs + comma) s) refl
  where
    go :
        (b : Bool)
        → exceeds (length qs + comma) s ≡ b
        → ((if b then ellipsis else qs) ≡ ellipsis)
          ⊎ (exceeds (length (if b then ellipsis else qs) + comma) s ≡ false)
    go true e = inl refl
    go false e = inr e

length-ellipsis :
    (qs rest : Text) → qs ≡ ellipsis → length (if qs == ellipsis then qs else qs ++ rest) ≡ 3
length-ellipsis qs rest e = rw ((==_iff qs ellipsis).1 e) (ap length e)

length-written :
    (b : Bool) (qs rest : Text) → length (if b then qs else qs ++ rest) ≤ length qs + length rest
length-written true qs rest = omega arith
length-written false qs rest = omega (arith, length-append qs rest)

-- What a path that fits leaves of the space.
room-minus : (n : ℕ) (s : ℤ) → exceeds n s ≡ false → (k : ℕ) → k ≤ n → room (minus s k) + k ≡ room s
room-minus n (pos m) e k h = ground arith
room-minus n (negsuc m) e k h = absurd (ground arith)

-- The part for one file and what follows, if the rest has its length.
written-length :
    (qs rest : Text) (comma k : ℕ) (s : ℤ)
    → (qs ≡ ellipsis) ⊎ (exceeds (length qs + comma) s ≡ false)
    → length rest ≤ room (minus s (length qs)) + 3 + k
    → length (if qs == ellipsis then qs else qs ++ rest) ≤ room s + 3 + k
written-length qs rest comma k s (inl e) h = omega (arith, length-ellipsis qs rest e)
written-length qs rest comma k s (inr e) h = omega (
  arith,
  length-written (qs == ellipsis) qs rest,
  room-minus (length qs + comma) s e (length qs) (omega arith),
)

more_files-length : (s : ℤ) (fs : List File) → length (more_files s fs) ≤ room s + 3 + length fs
unfolding more_files
more_files-length s [] = omega arith
more_files-length s (f ∷ fs) =
    let qs = shown (quoted f.logical_path) 1 s in
    omega (
      arith,
      written-length qs (more_files (minus s (length qs)) fs) 1 (length fs) s
          (shown_cases (quoted f.logical_path) 1 s) (more_files-length (minus s (length qs)) fs),
    )

first_file-length : (s : ℤ) (fs : List File) → length (first_file s fs) ≤ room s + 3 + length fs
unfolding first_file
first_file-length s [] = omega arith
first_file-length s (f ∷ fs) =
    let qs = shown (quoted f.logical_path) 0 s in
    omega (
      arith,
      written-length qs (more_files (minus s (length qs)) fs) 0 (length fs) s
          (shown_cases (quoted f.logical_path) 0 s) (more_files-length (minus s (length qs)) fs),
    )

room_six : (n : ℕ) → 6 ≤ n → room (minus (pos n) 6) + 6 ≡ n
room_six n h = ground arith

files-length : (fs : List File) (n : ℕ) → 6 ≤ n → length (files fs (pos n)) + 1 ≤ n + length fs
unfolding files
files-length fs n h = omega (
  arith,
  length-append (first_file (minus (pos n) 6) fs) (b']' ∷ []),
  first_file-length (minus (pos n) 6) fs,
  room_six n h,
)

with_files-length :
    (ctx : Context) (start : Text)
    → length start + 7 ≤ max_line_length
    → length (with_files ctx start) + 1 ≤ max_line_length + length ctx.files
unfolding with_files
with_files-length ctx start h = go (ctx.operation == text "STAGE")
  where
    space : ℕ
    space = max_line_length - (length start + 1)

    listed : Text
    listed = b' ' ∷ files ctx.files (minus (pos max_line_length) (length start + 1))

    enough : minus (pos max_line_length) (length start + 1) ≡ pos space
    enough = ground arith

    go :
        (b : Bool)
        → length (if b then start ++ listed else start) + 1 ≤ max_line_length + length ctx.files
    go true = omega (
      arith,
      length-append start listed,
      ap (λ s. length (files ctx.files s)) enough,
      files-length ctx.files space (omega arith),
    )
    go false = omega arith

-- If the line up to the files leaves room for six characters, a line of the access log with its end is
-- at most 2048 characters long and one more for each file of the request: the commas between the files
-- are not counted against the maximum.
pub after_handle-length :
    (timestamp id sub voms_user : Text) (code : ℕ) (ctx : Context)
    → length (line_start timestamp id sub voms_user code ctx) + 7 ≤ max_line_length
    → length (after_handle timestamp id sub voms_user code ctx) + 1
      ≤ max_line_length + length ctx.files
unfolding after_handle
after_handle-length timestamp id sub voms_user code ctx h =
    with_files-length ctx (line_start timestamp id sub voms_user code ctx) h
