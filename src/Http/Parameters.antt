-- ===== src/Http/Parameters.antt =====
-- The parameter "first" of a request to take over.
use storm_tape.Prelude.{ℕ, ◌<◌, ◌≡◌, false, some, ◌++◌, Text}
use storm_tape.Path.{text, is_empty}
use storm_tape.Http.Numbers.{decimal, from_chars-decimal}
use storm_tape.Http.Requests.{Parsers, from_body_params}
use Prim.Native.Nat.{◌^◌}

-- If the body of the request has a parameter "first" that is a number of 64 bits in decimal, that
-- number is the number of files to take over.
pub from_body_params-decimal :
    (P : Parsers) (body : Text) (n : ℕ)
    → is_empty body ≡ false
    → P.first_param (text "/a?" ++ body) ≡ some (some (decimal n))
    → n < 2 ^ 64
    → from_body_params P body ≡ some n
unfolding from_body_params
from_body_params-decimal P body n e f h = rw (e, f) (from_chars-decimal n h)
