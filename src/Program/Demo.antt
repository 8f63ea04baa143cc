-- ===== src/Program/Demo.antt =====
-- src/libmojitos_demo.c: one reading of the sources that the options ask for, on two lines.
mod Readings
mod Tests
use mojit_os.Base.{
  ltb, ◌==◌, if◌then◌else◌, Outcome, returns, exits, faults, ◌>>=◌, ℕ, zero, suc, ◌-◌, ◌^◌, ◌||◌,
  Option, none, some, List, [], ◌∷◌, ◌++◌,
}
use mojit_os.Base.Text.{codes, decimal}
use mojit_os.Libmojitos.{
  Cells, Sensor, MojOption, Moj, Stage, goes_on, exits_at, breaks, moj_init, moj_labels,
  moj_get_values, moj_clean,
}

-- `"%ld"` of a uint64_t
unfoldable pub decimal_long : ℕ → List ℕ
unfolding decimal
decimal_long n = if ltb n (2 ^ 63) then decimal n else b'-' ∷ decimal (2 ^ 64 - n)

-- `for (int i = 0; i < n; i++) printf("...\t", cells[i])`; outside the array, and where it was not
-- written, that is undefined.
unfoldable pub print_cells : {A : Type 0} → (A → List ℕ) → ℕ → Cells A → Outcome (List ℕ)
print_cells print zero cells = returns []
print_cells print (suc n) [] = faults
print_cells print (suc n) (none ∷ cells) = faults
print_cells print (suc n) (some a ∷ cells) = do
  text ← print_cells print n cells
  returns (print a ++ (b'\t' ∷ text))

-- What the process wrote when it ended, with code 0, and what the cleaners did.
pub record Demo (Act : Type 0) : Type 0 where
  pub text : List ℕ
  pub cleaned : List Act

module _ {W St Act : Type 0} where
  -- The part behind the test of `n`; `now` is the system at the call of `moj_get_values`.
  unfoldable pub demo_measures : W → ℕ → Moj W St Act → Outcome (Demo Act)
  unfolding print_cells decimal_long moj_labels moj_clean
  demo_measures now n m = do
    labels ← print_cells (λ l. l) n (moj_labels m)
    m' ← moj_get_values now m
    values ← print_cells decimal_long n m'.values
    acts ← moj_clean m'
    returns (record { text = labels ++ (b'\n' ∷ (values ++ (b'\n' ∷ []))); cleaned = acts })

  unfoldable pub demo_launch : W → ℕ → ℕ → Moj W St Act → Outcome (Demo Act)
  unfolding demo_measures
  demo_launch now argc n m =
      if (argc == 1) || (n == 0)
      then returns (record { text = codes "Usage\n"; cleaned = [] })
      else demo_measures now n m

  -- What `moj_init` comes to, and the rest of `main`; this program registers nothing with `atexit`.
  unfoldable pub demo_start : W → ℕ → Stage (Moj W St Act) → Outcome (Demo Act)
  unfolding demo_launch
  demo_start now argc (goes_on m) = demo_launch now argc m.nb_sensors m
  demo_start now argc (exits_at code m) = exits code
  demo_start now argc breaks = faults

  -- `main`, where the number of sensors is below 2^31, so that `n` is it.
  unfoldable pub demo_main :
      W
      → W
      → List MojOption
      → List (Sensor W St Act)
      → ℕ
      → List (ℕ × Option (List ℕ))
      → Outcome (Demo Act)
  unfolding demo_start moj_init
  demo_main w now moj_options sensors argc moj_answers =
      demo_start now argc (moj_init w moj_options sensors moj_answers)
