-- ===== src/Program/Main/Tests.antt =====
-- Runs of src/mojitos.c from its arguments, and its theorem at a concrete call.
use mojit_os.Base.{
  some-eq-some, length, get_elem?, returns, exits, faults, Safely, ℕ, zero, suc, ◌≡◌, refl, ◌⊎◌,
  true, false, Option, none, some, List, [], ◌∷◌,
}
use mojit_os.Base.Text.{codes, decimal}
use mojit_os.Libmojitos.{
  write_at, write_over, Sensor, add_source, match_sensor, start_match, handle_option, moj_init,
  moj_get_values,
}
use mojit_os.Libmojitos.Invariant.{Laws}
use mojit_os.Libmojitos.Options.{Table, sensors_of, options_of}
use mojit_os.Libmojitos.Tests.{clock_sensor, clock_table, ClockOk, clock_get_ok}
use mojit_os.Program.Loop.{Settings, Moment, one_round}
use mojit_os.Program.Main.{OptEntry, _dumpopts, printopts, Command, main}
use mojit_os.Program.Main.Application.{words_of}
use mathlib.Core.Path.{subst}

abbrev clock_entry : OptEntry
clock_entry = record {
  longname = codes "clock";
  shortname = b'c';
  usage_arg = none;
  usage_msg = codes "time";
}

test_printopts : printopts (clock_entry ∷ []) ≡ codes "-c|--clock\n\ttime\n"
unfolding printopts
test_printopts = refl

test_dumpopts : _dumpopts (clock_entry ∷ []) ≡ codes ".It Fl c | Fl \\-clock\ntime\n"
unfolding _dumpopts
test_dumpopts = refl

abbrev command_of : List (List ℕ) → Command
command_of words = record {
  save = words;
  argv = words;
  answers = (b'f', some (codes "2")) ∷ (b't', some (codes "1")) ∷ [];
  moj_answers = (b'c', none) ∷ [];
  moj_opts = clock_entry ∷ [];
  opens = λ path. true;
}

abbrev front_words : List (List ℕ)
front_words = codes "-f" ∷ codes "2" ∷ codes "-t" ∷ codes "1" ∷ codes "-c" ∷ []

abbrev call_words : List (List ℕ)
call_words = words_of (codes "mojitos" ∷ front_words) (codes "sleep") (codes "9" ∷ [])

abbrev moments_of_run : List (Moment ℕ)
moments_of_run =
    record { world = 7; seconds = 7; ref = 10; after_values = 400; after_output = 250000000 }
    ∷ record { world = 8; seconds = 8; ref = 10; after_values = 400; after_output = 250000000 }
    ∷ []

abbrev timed : Settings
timed = record { total_time = 1; delta = 1; frequency = 2; stat_mode = false; output_option = none }

-- The run prints a header and two rows, and the cleaner is called with the last state.
test_main :
    main 5 (options_of clock_table) (sensors_of clock_table) (command_of call_words) moments_of_run
    ≡ returns (record {
      lines =
          codes "#timestamp now before\n"
          ∷ codes "7.000000010 7 5\n"
          ∷ codes "8.000000010 8 7\n"
          ∷ [];
      code = 0;
      application = some (codes "sleep" ∷ codes "9" ∷ []);
      cleaned = 8 ∷ [];
    })
unfolding main moj_init handle_option match_sensor start_match add_source write_at write_over
    one_round decimal moj_get_values
test_main = refl

-- A clock that does not start: its `init` exits.
abbrev broken_clock : Sensor ℕ ℕ ℕ
broken_clock = record clock_sensor { init = λ now arg. exits 1 }

abbrev broken_table : Table ℕ ℕ ℕ
broken_table = (broken_clock, record { shortname = b'c'; fn = none } ∷ []) ∷ []

broken_init_ok :
    (i : ℕ) (s : Sensor ℕ ℕ ℕ)
    → get_elem? (sensors_of broken_table) i ≡ some s
    → (w : ℕ) (arg : Option (List ℕ))
    → Safely
        (λ (started : ℕ × ℕ).
          (started.0 ≡ 0)
          ⊎ (ClockOk s.get started.0 started.1 × (length (s.label started.1) ≡ started.0)))
        (s.init w arg)
broken_init_ok zero s e w arg =
    subst
      (λ (t : Sensor ℕ ℕ ℕ).
        Safely
          (λ (started : ℕ × ℕ).
            (started.0 ≡ 0)
            ⊎ (ClockOk t.get started.0 started.1 × (length (t.label started.1) ≡ started.0)))
          (t.init w arg))
      (some-eq-some e) tt
broken_init_ok (suc i) s e w arg = cc

abbrev broken_laws : Laws (sensors_of broken_table)
broken_laws = record { Ok = ClockOk; init_ok = broken_init_ok; get_ok = clock_get_ok }

-- The run is undefined.
test_broken :
    main 5
      (options_of broken_table)
      (sensors_of broken_table)
      (command_of call_words)
      moments_of_run
    ≡ faults
unfolding main moj_init handle_option match_sensor start_match add_source
test_broken = refl
