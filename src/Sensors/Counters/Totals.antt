-- ===== src/Sensors/Counters/Totals.antt =====
-- The sums of what src/counters.c reports.
use mojit_os.Base.{length, All, ◌≡◌, List}
use mojit_os.Sensors.Counters.{Counter}
use mojit_os.Sensors.Deltas.{IsU64}

-- A value for each counter.
abbrev pub IsCounter : Counter → Type 0
IsCounter s = All IsU64 s.counters_values × (length s.counters_values ≡ length s.counters)
