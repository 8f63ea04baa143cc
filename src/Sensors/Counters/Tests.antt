-- ===== src/Sensors/Counters/Tests.antt =====
-- Runs of src/counters.c, and its theorems at concrete inputs.
use mojit_os.Base.{
  length, All, returns, exits, Ensures, ℕ, ◌+◌, ◌*◌, ◌≡◌, refl, some, List, [], ◌∷◌,
}
use mojit_os.Base.Text.{codes, bytes_eq, tokens}
use mojit_os.Sensors.Counters.{
  PerfInfo, Counter, show_all_counters, perf_event_list, OpenPerf, has_count, init_counters,
  label_counters,
}
use mojit_os.Sensors.Counters.Listing.{IsListed, perf_event_list-IsListed}
use mojit_os.Sensors.Counters.Names.{init_counters-label_counters}

abbrev infos : List PerfInfo
infos =
    record { name = codes "cpu_cycles"; perf_type = 0; perf_key = 0 }
    ∷ record { name = codes "instructions"; perf_type = 0; perf_key = 1 }
    ∷ []

abbrev sys : OpenPerf
sys type config cpu = some (10 * config + cpu)

test_perf_event_list :
    perf_event_list infos (codes "instructions,,cpu_cycles") ≡ returns (1 ∷ 0 ∷ [])
unfolding perf_event_list bytes_eq tokens
test_perf_event_list = refl

test_show_all_counters :
    show_all_counters infos ≡ (codes "cpu_cycles\n" ∷ codes "instructions\n" ∷ [], exits 0)
unfolding show_all_counters
test_show_all_counters = refl

perf_event_list-IsListed_example :
    (All (IsListed (show_all_counters infos).0) (tokens b',' (codes "instructions,cycles"))
      → (indexes : List ℕ) × (perf_event_list infos (codes "instructions,cycles")
          ≡ returns indexes))
    × (¬ (All (IsListed (show_all_counters infos).0) (tokens b',' (codes "instructions,cycles")))
        → perf_event_list infos (codes "instructions,cycles") ≡ exits 1)
perf_event_list-IsListed_example = perf_event_list-IsListed infos (codes "instructions,cycles")

init_counters-label_counters_example :
    Ensures
      (λ (r : ℕ × List ℕ × Counter).
        (label_counters infos r.2 ≡ returns (tokens b',' (codes "instructions,cpu_cycles")))
        × (r.0 ≡ length (tokens b',' (codes "instructions,cpu_cycles"))))
      (init_counters infos sys 2 (λ fd. has_count fd) (codes "instructions,cpu_cycles"))
init_counters-label_counters_example =
    init_counters-label_counters infos sys 2 (λ fd. has_count fd) (codes "instructions,cpu_cycles")

abbrev two_cores : Counter
two_cores = record {
  nbcores = 2;
  counters = (10 ∷ 11 ∷ []) ∷ [];
  counters_values = 3 ∷ [];
  tmp_counters_values = 3 ∷ [];
  perf_indexes = 1 ∷ [];
}
