-- ===== src/Libmojitos/Tests.antt =====
-- The theorems on src/libmojitos.c at a table of one sensor that reports the time of the call and of
-- the call before.
use mojit_os.Base.{
  some-eq-some, length, get_elem?, returns, faults, ◌>>=◌, Safely, ℕ, zero, suc, ◌≡◌, refl, sym,
  ◌⊎◌, inr, Option, none, some, List, [], ◌∷◌, ◌++◌,
}
use mojit_os.Base.Text.{codes}
use mojit_os.Libmojitos.{
  write_at, write_over, Getter, Sensor, Moj, goes_on, counted_source, add_source, match_sensor,
  start_match, handle_option, moj_init, moj_get_values, moj_clean,
}
use mojit_os.Libmojitos.Invariant.{Laws, IsValid, Stands, IsFine, Interrupted, moj_init-IsValid}
use mojit_os.Libmojitos.Options.{
  Table, sensors_of, options_of, find_sensor, match_sensor_lem, IsAction,
}
use mojit_os.Libmojitos.Values.{overlay, poll, moj_get_values-poll, moj_get_values-IsValid}
use mojit_os.Libmojitos.Written.{Fills}
use mathlib.Core.Path.{subst}

abbrev pub get_clock : Getter ℕ ℕ
get_clock now before = returns (2, some now ∷ some before ∷ [], now)

abbrev pub clock_sensor : Sensor ℕ ℕ ℕ
clock_sensor = record {
  init = λ now arg. returns (2, now);
  get = get_clock;
  clean = λ before. before;
  label = λ before. codes "now" ∷ codes "before" ∷ [];
  nb_opt = 1;
}

abbrev pub clock_table : Table ℕ ℕ ℕ
clock_table = (clock_sensor, record { shortname = b'c'; fn = none } ∷ []) ∷ []

abbrev pub ClockOk : Getter ℕ ℕ → ℕ → ℕ → Type 0
ClockOk g n before = (g ≡ get_clock) × (n ≡ 2)

pub clock_init_ok :
    (i : ℕ) (s : Sensor ℕ ℕ ℕ)
    → get_elem? (sensors_of clock_table) i ≡ some s
    → (w : ℕ) (arg : Option (List ℕ))
    → Safely
        (λ (started : ℕ × ℕ).
          (started.0 ≡ 0)
          ⊎ (ClockOk s.get started.0 started.1 × (length (s.label started.1) ≡ started.0)))
        (s.init w arg)
clock_init_ok zero s e w arg =
    subst
      (λ (t : Sensor ℕ ℕ ℕ).
        Safely
          (λ (started : ℕ × ℕ).
            (started.0 ≡ 0)
            ⊎ (ClockOk t.get started.0 started.1 × (length (t.label started.1) ≡ started.0)))
          (t.init w arg))
      (some-eq-some e) (inr ((refl, refl), refl))
clock_init_ok (suc i) s e w arg = cc

pub clock_get_ok :
    (g : Getter ℕ ℕ) (n before : ℕ)
    → ClockOk g n before
    → (w : ℕ)
    → Safely
        (λ (r : ℕ × List (Option ℕ) × ℕ). (r.0 ≡ n) × (length r.1 ≡ n) × ClockOk g n r.2)
        (g w before)
clock_get_ok g n before (e, two) w = rw e (sym two, sym two, (refl, two))

abbrev pub clock_laws : Laws (sensors_of clock_table)
clock_laws = record { Ok = ClockOk; init_ok = clock_init_ok; get_ok = clock_get_ok }

pub clock_laws-Fills : Fills clock_laws
clock_laws-Fills g n before (e, two) w = rw e (w ∷ before ∷ [], refl)

pub clock_option-IsAction : IsAction (record { shortname = b'c'; fn = none })
clock_option-IsAction f e = cc

abbrev pub one_clock : Moj ℕ ℕ ℕ
one_clock = record {
  nb_sources = 1;
  nb_sensors = 2;
  labels = some (codes "now") ∷ some (codes "before") ∷ [];
  values = none ∷ none ∷ [];
  states = 5 ∷ [];
  getter = get_clock ∷ [];
  cleaner = (λ before. before) ∷ [];
}

-- The globals behind `moj_init` with an option of the clock and one that no sensor has.
clock_started :
    moj_init 5 (options_of clock_table) (sensors_of clock_table) ((b'c', none) ∷ (b'x', none) ∷ [])
    ≡ goes_on one_clock
unfolding moj_init handle_option match_sensor start_match add_source write_at
clock_started = refl

test_get_values :
    moj_get_values 9 one_clock
    ≡ returns (record one_clock { values = some 9 ∷ some 5 ∷ []; states = 9 ∷ [] })
unfolding moj_get_values write_over
test_get_values = refl

match_sensor_lem_example :
    match_sensor (options_of clock_table ++ []) b'c' (sensors_of clock_table) 0
    ≡ returns (find_sensor b'c' clock_table)
match_sensor_lem_example = match_sensor_lem clock_table [] b'c' (refl, tt)

abbrev pub one_clock-IsValid : IsValid (sensors_of clock_table) clock_laws one_clock
one_clock-IsValid = record {
  counts = 2 ∷ [];
  names = codes "now" ∷ codes "before" ∷ [];
  rows = ((refl, refl), tt);
  sources = refl;
  cleaners = refl;
  sensors_total = refl;
  values_fit = refl;
  labels_written = refl;
  labels_fit = refl;
}

moj_init-IsValid_example :
    Stands
      (IsFine clock_table clock_laws)
      (Interrupted clock_table clock_laws)
      (moj_init 5 (options_of clock_table ++ []) (sensors_of clock_table) ((b'c', none) ∷ []))
moj_init-IsValid_example =
    moj_init-IsValid clock_table clock_laws 5 [] ((b'c', none) ∷ []) (refl, tt)
      ((clock_option-IsAction, tt), tt)

moj_get_values-poll_example : moj_get_values 9 one_clock ≡ (
    poll 9 one_clock.getter one_clock.states >>= λ r.
    returns (record one_clock { states = r.1; values = overlay one_clock.values r.0 }))
moj_get_values-poll_example =
    moj_get_values-poll (sensors_of clock_table) clock_laws 9 one_clock one_clock-IsValid

moj_get_values-IsValid_example :
    Safely (IsValid (sensors_of clock_table) clock_laws) (moj_get_values 9 one_clock)
moj_get_values-IsValid_example =
    moj_get_values-IsValid (sensors_of clock_table) clock_laws 9 one_clock one_clock-IsValid

test_counted_source : moj_clean (counted_source one_clock) ≡ faults
unfolding moj_clean
test_counted_source = refl

-- A place that is left out keeps what it held; behind the array nothing is written.
test_write_over :
    write_over {A = ℕ} (none ∷ some 4 ∷ some 5 ∷ []) 1 (none ∷ some 9 ∷ [])
    ≡ returns (none ∷ some 4 ∷ some 9 ∷ [])
unfolding write_over
test_write_over = refl
