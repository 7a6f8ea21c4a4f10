-- ===== src/Profiler/Trace.antt =====
-- The trace of a run: one array, its entries apart by commas, and no quote but those that delimit.
use storm_tape.Prelude.{
  ℕ, zero, suc, ◌+◌, ◌*◌, ◌-◌, ◌<◌, ◌≡◌, refl, sym, ap, ◌∙◌, false, List, [], ◌∷◌, ◌++◌, map, arith,
  Text, length, ltb, eqb, if◌then◌else◌, append_assoc, append-nil, Bool-cases, inl, inr,
}
use Prim.Native.Nat.{◌/◌, ◌%◌}
use storm_tape.Path.{text}
use storm_tape.Http.Numbers.{decimal, digits}
use storm_tape.Profiler.{
  ProfileResult, Ended, opened, closed, header, footer, unquoted, duration, event, write_profile,
  result_of, stop_all,
}

-- The texts with commas between them.
abbrev pub after_comma : List Text → Text
after_comma [] = []
after_comma (t ∷ ts) = text "," ++ (t ++ after_comma ts)

abbrev pub joined : List Text → Text
joined [] = []
joined (t ∷ ts) = t ++ after_comma ts

abbrev pub quotes : Text → ℕ
quotes [] = 0
quotes (c ∷ cs) = (if eqb c b'"' then 1 else 0) + quotes cs

quotes-append : (s t : Text) → quotes (s ++ t) ≡ quotes s + quotes t
quotes-append [] t = omega arith
quotes-append (c ∷ s) t = omega (arith, quotes-append s t)

quotes-unquoted : (s : Text) → quotes (unquoted s) ≡ 0
unfolding unquoted
quotes-unquoted [] = refl
quotes-unquoted (c ∷ cs) = ground (arith, quotes-unquoted cs)

quotes-digits : (fuel n : ℕ) → n < fuel → quotes (digits fuel n) ≡ 0
unfolding digits
quotes-digits zero n h = refl
quotes-digits (suc fuel) n h = elim (Bool-cases (ltb n 10)) [
  | inl small ↦ rw small (ground arith)
  | inr large ↦ rw large (
      ground (
        arith,
        quotes-append (digits fuel (n / 10)) ((48 + n % 10) ∷ []),
        quotes-digits fuel (n / 10),
      ))
]

quotes-decimal : (n : ℕ) → quotes (decimal n) ≡ 0
unfolding decimal
quotes-decimal n = quotes-digits (suc n) n (omega arith)

quotes-duration : (e s : ℕ) → quotes (duration e s) ≡ 0
unfolding duration
quotes-duration e s = ground (arith, quotes-decimal (e - s), quotes-decimal (s - e))

quotes-event : (r : ProfileResult) → quotes (event r) ≡ 20
unfolding event
quotes-event r =
    simp (quotes-append, quotes-duration, quotes-unquoted, quotes-decimal) (omega arith)

quotes-after_comma :
    (rs : List ProfileResult) → quotes (after_comma (map event rs)) ≡ 20 * length rs
quotes-after_comma [] = refl
quotes-after_comma (r ∷ rs) = omega (
  arith,
  quotes-append (event r) (after_comma (map event rs)),
  quotes-event r,
  quotes-after_comma rs,
)

quotes-joined : (rs : List ProfileResult) → quotes (joined (map event rs)) ≡ 20 * length rs
quotes-joined [] = refl
quotes-joined (r ∷ rs) = omega (
  arith,
  quotes-append (event r) (after_comma (map event rs)),
  quotes-event r,
  quotes-after_comma rs,
)

module _ (microseconds : ℕ → ℕ) where
  abbrev pub results : List Ended → List ProfileResult
  results = map (result_of microseconds)

  -- After the first profile, each has a comma before it.
  stop_all-later :
      (es : List Ended) (os : Text)
      → (stop_all microseconds es (record { os = os; first_profile = false })).os
        ≡ os ++ after_comma (map event (results es))
  unfolding stop_all write_profile
  stop_all-later [] os = sym (append-nil os)
  stop_all-later (e ∷ es) os =
      stop_all-later es (os ++ (text "," ++ event (result_of microseconds e))) ∙ append_assoc os _ _

  stop_all-joined :
      (es : List Ended)
      → (stop_all microseconds es opened).os ≡ header ++ joined (map event (results es))
  unfolding stop_all write_profile
  stop_all-joined [] = refl
  stop_all-joined (e ∷ es) =
      stop_all-later es (header ++ event (result_of microseconds e))
      ∙ append_assoc header (event (result_of microseconds e))
          (after_comma (map event (results es)))

  document :
      (es : List Ended)
      → closed (stop_all microseconds es opened)
        ≡ header ++ (joined (map event (results es)) ++ footer)
  document es =
      ap (λ os. os ++ footer) (stop_all-joined es)
      ∙ append_assoc header (joined (map event (results es))) footer

  length-results : (es : List Ended) → length (results es) ≡ length es
  length-results [] = refl
  length-results (e ∷ es) = ap suc (length-results es)

  -- Whatever timers end, and in whatever order, the trace is the array of their events with commas
  -- between them, in this order; it has 4 quotes, and 20 for each event, so that no name ends a text.
  pub trace-joined :
      (es : List Ended)
      → (closed (stop_all microseconds es opened)
          ≡ header ++ (joined (map event (results es)) ++ footer))
        × (quotes (closed (stop_all microseconds es opened)) ≡ 4 + 20 * length es)
  trace-joined es = (
    document es,
    ap quotes (document es)
        ∙ omega (
          arith,
          quotes-append (joined (map event (results es))) footer,
          quotes-joined (results es),
          length-results es,
        ),
  )
