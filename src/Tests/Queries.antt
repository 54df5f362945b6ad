-- ===== src/Tests/Queries.antt =====
-- The statistics of a developer through a change of address, at concrete answers.
use blindference.Prelude.{ℕ, true, false, some, none, ok, arith}
use blindference.Frontend.Queries.{Query, enter_stats, finish_stats}
use blindference.Frontend.Queries.Life.{Stats, StatsStep, StatsReach, Busy, StatsReach-Busy}

abbrev rest : Stats ℕ
rest = record {
  query = record { answer = none; loading = false; error = some "old" };
  live = false;
}

abbrev asking : Query ℕ
asking = record { answer = none; loading = true; error = none }

abbrev busy : Stats ℕ
busy = record { query = asking; live = true }

at_rest : Busy rest
at_rest live = ground arith

entered : StatsStep rest busy
unfolding enter_stats
entered = StatsStep.enter rest (some "0x1")

-- The address changes, and the answer of the first request comes late.
reached : StatsReach rest busy
unfolding enter_stats finish_stats
reached =
    StatsReach.next
      (StatsReach.next (StatsReach.next StatsReach.here entered)
        (StatsStep.enter busy (some "0x2")))
      (StatsStep.late busy (ok 3))

StatsReach-Busy_example : Busy busy
StatsReach-Busy_example = StatsReach-Busy at_rest reached
