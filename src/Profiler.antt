-- ===== src/Profiler.antt =====
-- profiler.hpp and profiler.cpp: the trace that is written where the program is built for profiling.
-- Calls of write_profile hold a lock, so threads write one profile after the other. The clock ticks in
-- units of the library, and the cast to microseconds is a parameter.
pub mod Trace
use storm_tape.Prelude.{
  ℕ, ◌-◌, Bool, true, false, List, [], ◌∷◌, ◌++◌, Text, eqb, leb, if◌then◌else◌,
}
use storm_tape.Path.{text}
use storm_tape.Http.Numbers.{decimal}

pub record ProfileResult : Type 0 where
  pub name : Text
  pub start : ℕ
  pub end : ℕ
  pub thread_id : ℕ

-- The file results.json as it is written so far.
pub record Instrumentor : Type 0 where
  pub os : Text
  pub first_profile : Bool

abbrev pub header : Text
header = text "{\"otherData\": {},\"traceEvents\":[" ++ text "\n"

abbrev pub footer : Text
footer = text "]}"

-- The constructor: write_header.
abbrev pub opened : Instrumentor
opened = record { os = header; first_profile = true }

-- The destructor: write_footer.
abbrev pub closed : Instrumentor → Text
closed i = i.os ++ footer

-- std::replace of '"' by '\''
unfoldable pub unquoted : Text → Text
unquoted [] = []
unquoted (c ∷ cs) = (if eqb c b'"' then b'\'' else c) ∷ unquoted cs

-- The difference of two times, with its sign.
unfoldable pub duration : ℕ → ℕ → Text
unfolding decimal
duration end start =
    if leb start end then decimal (end - start) else text "-" ++ decimal (start - end)

-- The text of a profile.
unfoldable pub event : ProfileResult → Text
unfolding unquoted duration decimal
event result =
    text "{\"cat\":\"function\",\"dur\":"
    ++ (duration result.end result.start
        ++ (text ",\"name\":\""
            ++ (unquoted result.name
                ++ (text "\",\"ph\":\"X\",\"pid\":0,\"tid\":"
                    ++ (decimal result.thread_id
                        ++ (text ",\"ts\":"
                            ++ (decimal result.start ++ (text "}" ++ text "\n"))))))))

unfoldable pub write_profile : ProfileResult → Instrumentor → Instrumentor
unfolding event
write_profile result i = record {
  os = i.os ++ ((if i.first_profile then [] else text ",") ++ event result);
  first_profile = false;
}

pub record InstrumentationTimer : Type 0 where
  pub name : Text
  pub start_tp : ℕ

-- A timer that ends: when, and in which thread.
pub record Ended : Type 0 where
  pub timer : InstrumentationTimer
  pub end_tp : ℕ
  pub thread_id : ℕ

module _ (microseconds : ℕ → ℕ) where
  abbrev pub result_of : Ended → ProfileResult
  result_of e = record {
    name = e.timer.name;
    start = microseconds e.timer.start_tp;
    end = microseconds e.end_tp;
    thread_id = e.thread_id;
  }

  -- InstrumentationTimer::stop
  unfoldable pub stop : Ended → Instrumentor → Instrumentor
  unfolding write_profile
  stop e = write_profile (result_of e)

  unfoldable pub stop_all : List Ended → Instrumentor → Instrumentor
  unfolding stop
  stop_all [] i = i
  stop_all (e ∷ es) i = stop_all es (stop e i)
