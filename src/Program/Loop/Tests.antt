-- ===== src/Program/Loop/Tests.antt =====
-- Runs of src/mojitos.c, and its theorems at concrete inputs.
use mojit_os.Base.{
  length, returns, Safely, ℕ, ◌+◌, ◌*◌, ◌/◌, ◌%◌, ◌≤◌, ◌<◌, ◌≡◌, refl, true, none, some, List, [],
  ◌∷◌, arith,
}
use mojit_os.Base.Text.{codes}
use mojit_os.Libmojitos.{Moj}
use mojit_os.Libmojitos.Invariant.{IsValid}
use mojit_os.Libmojitos.Options.{sensors_of}
use mojit_os.Libmojitos.Tests.{clock_table, clock_laws, one_clock, one_clock-IsValid}
use mojit_os.Program.Loop.{
  signed_of, Settings, default_settings, set_options, sleep_time, Moment, Effect, run_main,
}
use mojit_os.Program.Loop.Rounds.{sleep_time_aligned, run_main-counted, run_main-endless}

abbrev two_rounds : Settings
two_rounds = record {
  total_time = 1;
  delta = 1;
  frequency = 2;
  stat_mode = true;
  output_option = none;
}

test_set_options :
    set_options
      ((b'f', some (codes "2")) ∷ (b't', some (codes "1")) ∷ (b's', none) ∷ [])
      default_settings
    ≡ returns two_rounds
unfolding set_options
test_set_options = refl

abbrev moment_at : ℕ → Moment ℕ
moment_at t = record {
  world = t;
  seconds = t;
  ref = 10;
  after_values = 400;
  after_output = 250000000;
}

sleep_time_aligned_example :
    (sleep : ℕ) × (sleep_time (signed_of 3) 250000000 ≡ returns sleep)
    × (0 < sleep)
    × (sleep ≤ 1000000 / 3)
    × ((250000000 / 1000 + sleep) % (1000000 / 3) ≡ 0)
sleep_time_aligned_example = sleep_time_aligned 3 250000000 (omega arith) (omega arith)

run_main-counted_example :
    Safely
      (λ (r : List Effect × Moj ℕ ℕ ℕ).
        (length r.0 ≡ 1 * 2) × IsValid (sensors_of clock_table) clock_laws r.1)
      (run_main two_rounds (moment_at 1 ∷ moment_at 2 ∷ moment_at 3 ∷ []) one_clock)
run_main-counted_example =
    run_main-counted (sensors_of clock_table) clock_laws two_rounds
      (moment_at 1 ∷ moment_at 2 ∷ moment_at 3 ∷ []) one_clock (omega arith, omega arith) refl
      (omega arith) (omega arith) (omega arith) one_clock-IsValid

run_main-endless_example :
    Safely
      (λ (r : List Effect × Moj ℕ ℕ ℕ).
        (length r.0 ≡ 2) × IsValid (sensors_of clock_table) clock_laws r.1)
      (run_main default_settings (moment_at 1 ∷ moment_at 2 ∷ []) one_clock)
run_main-endless_example =
    run_main-endless (sensors_of clock_table) clock_laws default_settings
      (moment_at 1 ∷ moment_at 2 ∷ []) one_clock (omega arith, omega arith) refl refl
      one_clock-IsValid
