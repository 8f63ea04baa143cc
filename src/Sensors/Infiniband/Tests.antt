-- ===== src/Sensors/Infiniband/Tests.antt =====
-- The theorems on src/infiniband.c at concrete files.
use mojit_os.Base.{Ensures, ℕ, ◌+◌, ◌≡◌, refl, Option, none, some, List, [], ◌∷◌, ◌++◌, arith}
use mojit_os.Base.Text.{codes, decimal}
use mojit_os.Sensors.Deltas.{add_into, run}
use mojit_os.Sensors.Infiniband.{Infiniband, get_infiniband, get_infiniband_total}
use mojit_os.Sensors.Reading.{Files}
use mathlib.Core.List.{foldl}

abbrev port_file : Files (Option ℕ)
port_file none = none
port_file (some fd) = some (decimal (100 + fd) ++ (10 ∷ []))

abbrev port : Infiniband
port = record { values = 90 ∷ 101 ∷ []; tmp_values = 0 ∷ 0 ∷ []; sources = some 0 ∷ some 1 ∷ [] }

get_infiniband_total_example :
    Ensures
      (λ (r : List (List ℕ) × Infiniband). foldl add_into port.values r.0 ≡ r.1.values)
      (run
        (λ (call : Files (Option ℕ) × List ℕ). get_infiniband call.0 call.1)
        ((port_file, []) ∷ (port_file, codes "xyz") ∷ [])
        port)
get_infiniband_total_example =
    get_infiniband_total ((port_file, []) ∷ (port_file, codes "xyz") ∷ []) port
      (record { numbers = omega arith; same = refl })
