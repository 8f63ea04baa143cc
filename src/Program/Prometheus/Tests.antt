-- ===== src/Program/Prometheus/Tests.antt =====
-- Runs of src/prometheus_manager.c, and its theorem at a concrete input.
use mojit_os.Base.{returns, ℕ, ◌<◌, ◌≡◌, refl, true, false, List, [], ◌∷◌, ◌++◌, arith}
use mojit_os.Base.Text.{codes, decimal}
use mojit_os.Program.Prometheus.{clean_labels, Exporter, init_manager_prometheus}
use mojit_os.Program.Prometheus.Queue.{happen_all, happen_all-all_lines}
use mojit_os.Program.Prometheus.Room.{Event, sample, request, concat, all_lines, IsMeasured}

test_clean_labels : clean_labels (codes "package-0" ∷ []) ≡ codes "package_0" ∷ []
unfolding clean_labels
test_clean_labels = refl

abbrev one_label : List (List ℕ)
one_label = codes "rxp" ∷ []

-- A round, the two calls of a request, and a round with its overhead.
abbrev four_events : List Event
four_events =
    sample 1000 (5 ∷ []) 0 ∷ request true false ∷ request true true ∷ sample 2000 (6 ∷ []) 9 ∷ []

happen_all-all_lines_example :
    (start : Exporter) × (init_manager_prometheus true ≡ returns start)
    × (served : List ℕ) × (e : Exporter) × (happen_all one_label four_events start
        ≡ returns (served, e))
    × (served ++ e.page ≡ concat (all_lines one_label four_events))
unfolding decimal
happen_all-all_lines_example =
    let small : (n : ℕ) → n < 10 → IsMeasured one_label (n ∷ []) = λ n h. omega arith in
    happen_all-all_lines one_label four_events
      (
        (refl, omega arith, small 5 (omega arith), omega arith),
        (tt, (tt, ((refl, omega arith, small 6 (omega arith), omega arith), tt))),
      )
      (omega arith)
