-- ===== src/Sensors/Load/Tests.antt =====
-- Runs of src/load.c, and its theorems at concrete inputs.
use mojit_os.Base.{replicate, returns, ℕ, ◌≡◌, refl, Option, some, List, [], ◌∷◌, ◌++◌, arith}
use mojit_os.Base.Text.{codes, decimal}
use mojit_os.Sensors.Deltas.{differences}
use mojit_os.Sensors.Load.{load_start, get_load}
use mojit_os.Sensors.Load.Line.{ShowsLine, get_load-ShowsLine}
use mojit_os.Sensors.Load.Totals.{IsLoad}

abbrev times : List ℕ
times = 10 ∷ 20 ∷ 30 ∷ 40 ∷ 50 ∷ 60 ∷ 70 ∷ 80 ∷ 90 ∷ 100 ∷ []

abbrev stat_file : Option (List ℕ)
stat_file = some (codes "cpu  10 20 30 40 50 60 70 80 90 100" ++ (10 ∷ codes "cpu0"))

stat_file-ShowsLine : ShowsLine stat_file times
unfolding decimal
stat_file-ShowsLine = record {
  name = codes "cpu  ";
  first = 10;
  others = 20 ∷ 30 ∷ 40 ∷ 50 ∷ 60 ∷ 70 ∷ 80 ∷ 90 ∷ 100 ∷ [];
  end = 10;
  more = codes "cpu0";
  content = refl;
  whole = refl;
  no_digit = (refl, (refl, (refl, (refl, (refl, tt)))));
  small = omega arith;
  count = refl;
  ends = refl;
  reached = omega arith;
}

get_load-ShowsLine_example :
    (next : List ℕ) × (get_load stat_file load_start
      ≡ returns (
        differences times (replicate 10 0),
        record { buffer = next; load_values = times; tmp_load_values = times },
      ))
get_load-ShowsLine_example = get_load-ShowsLine stat_file times load_start stat_file-ShowsLine

load_start-IsLoad : IsLoad load_start
load_start-IsLoad = omega arith
