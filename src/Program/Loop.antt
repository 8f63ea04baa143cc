-- ===== src/Program/Loop.antt =====
-- src/mojitos.c: the options of the program, and the loop that samples.
pub mod Rounds
mod Tests
use mojit_os.Base.{
  ltb, leb, ◌==◌, if◌then◌else◌, Outcome, returns, faults, ◌>>=◌, ℕ, ◌+◌, ◌-◌, ◌*◌, ◌/◌, ◌%◌, ◌^◌,
  Bool, true, false, not, ◌&&◌, ◌||◌, Option, none, some, List, [], ◌∷◌,
}
use mojit_os.Base.Text.{atoi}
use mojit_os.Libmojitos.{Cells, Moj, moj_get_values}

-- An `int` by its sign and its magnitude.
pub record SignedInt : Type 0 where
  pub minus : Bool
  pub magnitude : ℕ

-- The `int` whose 32-bit pattern is `u`.
abbrev pub signed_of : ℕ → SignedInt
signed_of u =
    if ltb u (2 ^ 31)
    then record { minus = false; magnitude = u }
    else record { minus = true; magnitude = 2 ^ 32 - u }

-- The local variables of `main` that the options set. `stat_mode` is -1, or 0, which is `true` here.
pub record Settings : Type 0 where
  pub total_time : ℕ
  pub delta : ℕ
  pub frequency : ℕ
  pub stat_mode : Bool
  pub output_option : Option (List ℕ)

abbrev pub default_settings : Settings
default_settings = record {
  total_time = 1;
  delta = 0;
  frequency = 1;
  stat_mode = false;
  output_option = none;
}

abbrev pub set_time : ℕ → Settings → Settings
set_time time s =
    if time == 0
    then record s { total_time = 1; delta = 0 }
    else record s { total_time = time; delta = 1 }

-- One round of the loop over the options: the option's short name and its argument, as 32-bit
-- patterns where they are numbers. An option with a required argument has one.
unfoldable pub set_option : ℕ × Option (List ℕ) → Settings → Outcome Settings
unfolding atoi
set_option (opt, none) s =
    if opt == b's'
    then returns (record s { stat_mode = true })
    else if opt == b'o'
    then returns (record s { output_option = none })
    else if opt == b'f' || opt == b't'
    then faults
    else returns s
set_option (opt, some optarg) s =
    if opt == b'f'
    then returns (record s { frequency = atoi optarg })
    else if opt == b't'
    then returns (set_time (atoi optarg) s)
    else if opt == b's'
    then returns (record s { stat_mode = true })
    else if opt == b'o'
    then returns (record s { output_option = some optarg })
    else returns s

-- The answers of `optparse_long` up to its -1.
unfoldable pub set_options : List (ℕ × Option (List ℕ)) → Settings → Outcome Settings
unfolding set_option
set_options [] s = returns s
set_options (option ∷ options) s = do s' ← set_option option s; set_options options s'

abbrev pub same_sign : Bool → Bool → Bool
same_sign true b = b
same_sign false b = not b

-- The bound `total_time * frequency` of the loop: the product, where it is positive, and 0 where the
-- loop is not entered. An overflow of `int` is undefined.
unfoldable pub loop_bound : SignedInt → SignedInt → Outcome ℕ
loop_bound time freq =
    let product = time.magnitude * freq.magnitude in
    if ltb 2147483648 product || (product == 2147483648 && same_sign time.minus freq.minus)
    then faults
    else returns (if same_sign time.minus freq.minus then product else 0)

-- `stat_data` from `tv_nsec` of `ts_ref` and of `ts`.
unfoldable pub overhead : ℕ → ℕ → ℕ
overhead ref now = if leb ref now then now - ref else 1000 * 1000 * 1000 + now - ref

-- The argument of `usleep`, an `unsigned int`, from `tv_nsec`. Division by 0 is undefined; `%` keeps
-- the sign of its left side.
unfoldable pub sleep_time : SignedInt → ℕ → Outcome ℕ
sleep_time freq tv_nsec =
    let period = 1000 * 1000 / freq.magnitude in
    if freq.magnitude == 0 || period == 0
    then faults
    else returns (
        if freq.minus
        then (2 ^ 32 - (period + tv_nsec / 1000 % period)) % 2 ^ 32
        else period - tv_nsec / 1000 % period)

-- What a round meets: what the sources can read, and `tv_nsec` of the three readings of the clock;
-- `seconds` is `tv_sec` of the first.
pub record Moment (W : Type 0) : Type 0 where
  pub world : W
  pub seconds : ℕ
  pub ref : ℕ
  pub after_values : ℕ
  pub after_output : ℕ

-- What a round does: the arguments of `use_manager`, and how long it sleeps.
pub record Effect : Type 0 where
  pub seconds : ℕ
  pub nanoseconds : ℕ
  pub values : Cells ℕ
  pub stat_data : ℕ
  pub sleep : ℕ

module _ {W St Act : Type 0} where
  -- The body of the loop. `stat_data` keeps its value without `stat_mode`.
  unfoldable pub one_round :
      Settings → Moment W → ℕ × Moj W St Act → Outcome (Effect × ℕ × Moj W St Act)
  unfolding overhead sleep_time moj_get_values
  one_round s now (stat_data, m) = do
    m' ← moj_get_values now.world m
    sleep ← sleep_time (signed_of s.frequency) now.after_output
    returns (
      record {
        seconds = now.seconds;
        nanoseconds = now.ref;
        values = m'.values;
        stat_data = if s.stat_mode then overhead now.ref now.after_values else stat_data;
        sleep = sleep;
      },
      if s.stat_mode then overhead now.ref now.after_values else stat_data,
      m',
    )

  -- `for (int temps = 0; temps < bound; temps += delta)` while there are moments: the effects, and the
  -- state at the end. A signal or the end of the moments stops a loop that has no end of its own.
  unfoldable pub sample_loop :
      Settings → ℕ → ℕ → List (Moment W) → ℕ × Moj W St Act → Outcome (List Effect × Moj W St Act)
  unfolding one_round
  sample_loop s bound temps [] (stat_data, m) = returns ([], m)
  sample_loop s bound temps (now ∷ moments) (stat_data, m) =
      if ltb temps bound
      then (do
        (effect, stat_data', m') ← one_round s now (stat_data, m)
        (effects, m'') ← sample_loop s bound (temps + s.delta) moments (stat_data', m')
        returns (effect ∷ effects, m''))
      else returns ([], m)

  -- The loop of `main` with the bound that the settings give.
  unfoldable pub run_main :
      Settings → List (Moment W) → Moj W St Act → Outcome (List Effect × Moj W St Act)
  unfolding loop_bound sample_loop
  run_main s moments m = do
    bound ← loop_bound (signed_of s.total_time) (signed_of s.frequency)
    sample_loop s bound 0 moments (0, m)
