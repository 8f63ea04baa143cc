-- ===== src/Program/Main.antt =====
-- src/mojitos.c: main from its arguments to its end, as the program mojitos, whose manager is
-- src/display_manager.c.
mod Application
mod Rows
mod Complete
mod Tests
use mojit_os.Base.{
  if◌then◌else◌, drop, is_empty, Outcome, returns, exits, faults, ◌>>=◌, ℕ, Bool, Option, none,
  some, List, [], ◌∷◌, ◌++◌,
}
use mojit_os.Base.Text.{codes, bytes_eq}
use mojit_os.Libmojitos.{
  Cells, Sensor, MojOption, Moj, Stage, goes_on, exits_at, breaks, moj_start, moj_init, moj_labels,
  moj_clean,
}
use mojit_os.Program.Display.{init_manager_display, use_manager_display}
use mojit_os.Program.Loop.{Settings, default_settings, set_options, Moment, Effect, run_main}

-- What the texts use of `struct optparse_long`.
pub record OptEntry : Type 0 where
  pub longname : List ℕ
  pub shortname : ℕ
  pub usage_arg : Option (List ℕ)
  pub usage_msg : List ℕ

unfoldable pub opts : List OptEntry
opts =
    record {
      longname = codes "freq";
      shortname = b'f';
      usage_arg = some (codes "<freq>");
      usage_msg = codes "set amount of measurements per second.";
    }
    ∷ record {
      longname = codes "time";
      shortname = b't';
      usage_arg = some (codes "<time>");
      usage_msg = codes "set duration value (seconds). If 0, then loops infinitely.";
    }
    ∷ record {
      longname = codes "option";
      shortname = b'o';
      usage_arg = some (codes "<output file> or <port number>");
      usage_msg = codes "specify a log file for MojitO/S or a port number for prometeus_mojitO/S.";
    }
    ∷ record {
      longname = codes "overhead-stats";
      shortname = b's';
      usage_arg = none;
      usage_msg = codes "enable overhead statistics (nanoseconds).";
    }
    ∷ []

abbrev pub arg_text : List ℕ → Option (List ℕ) → List ℕ
arg_text lead none = []
arg_text lead (some arg) = lead ++ arg

unfoldable pub _dumpopts : List OptEntry → List ℕ
_dumpopts [] = []
_dumpopts (o ∷ rest) =
    codes ".It Fl "
    ++ (o.shortname
        ∷ (codes " | Fl \\-"
            ++ (o.longname
                ++ (arg_text (codes " Ar ") o.usage_arg
                    ++ (codes "\n" ++ (o.usage_msg ++ (codes "\n" ++ _dumpopts rest)))))))

unfoldable pub dumpopts : List OptEntry → List OptEntry → List ℕ
unfolding _dumpopts
dumpopts opts moj_opts =
    codes ".Pp\nOPTIONS:\n.Bl -tag -width Ds\n"
    ++ (_dumpopts opts
        ++ (codes ".El\n"
            ++ (codes ".Pp\nSENSORS:\n.Bl -tag -width Ds\n"
                ++ (_dumpopts moj_opts ++ codes ".El\n"))))

unfoldable pub printopts : List OptEntry → List ℕ
printopts [] = []
printopts (o ∷ rest) =
    b'-'
    ∷ (o.shortname
        ∷ (codes "|--"
            ++ (o.longname
                ++ (arg_text (codes " ") o.usage_arg
                    ++ (codes "\n\t" ++ (o.usage_msg ++ (codes "\n" ++ printopts rest)))))))

unfoldable pub usage : List ℕ → List OptEntry → List ℕ
unfolding printopts opts
usage name moj_opts =
    codes "Usage : "
    ++ (name
        ++ (codes " [OPTIONS] [SENSOR ...] [-- <cmd> <argument>...]\n"
            ++ (codes "\nOPTIONS:\n"
                ++ (printopts opts
                    ++ (if is_empty moj_opts
                        then []
                        else codes "\nSENSORS:\n" ++ printopts moj_opts)))))

-- The loop that looks for `--`: `save` and `argv` are the words from `pos` on. The last word is not
-- looked at. `optparse_long` may have permuted `argv`, and `save` is as it was.
unfoldable pub find_application : List (List ℕ) → List (List ℕ) → Option (List (List ℕ))
unfolding bytes_eq
find_application [] argv = none
find_application (word ∷ []) argv = none
find_application (word ∷ (next ∷ save)) argv =
    if bytes_eq (codes "--") word
    then some (drop 1 argv)
    else find_application (next ∷ save) (drop 1 argv)

-- What main does behind `moj_init`: print a text and exit with a code, or measure.
pub data Launch : Type 0 where
  shows_text : List ℕ → ℕ → Launch
  measuring : Launch

unfoldable pub launch : List (List ℕ) → List OptEntry → Launch
unfolding usage dumpopts opts bytes_eq
launch [] moj_opts = measuring
launch (name ∷ []) moj_opts = shows_text (usage name moj_opts) 1
launch (name ∷ (arg ∷ [])) moj_opts =
    if bytes_eq arg (codes "--dump-opts") then shows_text (dumpopts opts moj_opts) 0 else measuring
launch (name ∷ (arg ∷ (next ∷ argv))) moj_opts = measuring

-- The call of the program: its words before and after `optparse_long`, the answers of its two loops over
-- the options, the options of the sensors, and whether a file opens.
pub record Command : Type 0 where
  pub save : List (List ℕ)
  pub argv : List (List ℕ)
  pub answers : List (ℕ × Option (List ℕ))
  pub moj_answers : List (ℕ × Option (List ℕ))
  pub moj_opts : List OptEntry
  pub opens : List ℕ → Bool

-- How the process ends: the lines that it wrote, its exit code, the program that it forked to run, and
-- what the cleaners did in `flushexit`.
pub record Ending (Act : Type 0) : Type 0 where
  pub lines : List (List ℕ)
  pub code : ℕ
  pub application : Option (List (List ℕ))
  pub cleaned : List Act

-- Cells that are read; one that was not written is undefined.
unfoldable pub read_cells : {A : Type 0} → Cells A → Outcome (List A)
read_cells [] = returns []
read_cells (none ∷ cells) = faults
read_cells (some a ∷ cells) = do values ← read_cells cells; returns (a ∷ values)

-- The calls of `use_manager` in the rounds.
unfoldable pub print_rows : List Effect → Outcome (List (List ℕ))
unfolding read_cells use_manager_display
print_rows [] = returns []
print_rows (e ∷ effects) = do
  values ← read_cells e.values
  more ← print_rows effects
  let row =
      use_manager_display (record { tv_sec = e.seconds; tv_nsec = e.nanoseconds }) values
        e.stat_data
  returns (row ∷ more)

abbrev pub output_file : (List ℕ → Bool) → Option (List ℕ) → Option Bool
output_file opens none = none
output_file opens (some path) = some (opens path)

module _ {W St Act : Type 0} where
  -- The end of the process in a call while the globals of libmojitos.c are `m`, but for the states that
  -- getters point at: `exit` runs `flushexit`, which calls `moj_clean`. What the cleaners do is not
  -- kept then; whether they can be called is.
  unfoldable pub at_exit : {A : Type 0} → Moj W St Act → Outcome A → Outcome A
  unfolding moj_clean
  at_exit m (returns a) = returns a
  at_exit m (exits code) = do acts ← moj_clean m; exits code
  at_exit m faults = faults

  -- From `moj_labels` on. The end of the moments is a signal, or the end of the loop.
  unfoldable pub measure :
      Command → List (Moment W) → Settings → Moj W St Act → Outcome (Ending Act)
  unfolding read_cells print_rows init_manager_display run_main find_application moj_labels
      moj_clean
  measure cmd moments s m = do
    labels ← read_cells (moj_labels m)
    header ← init_manager_display (output_file cmd.opens s.output_option) labels s.stat_mode
    (effects, m') ← run_main s moments m
    rows ← print_rows effects
    acts ← moj_clean m'
    returns (record {
      lines = header ∷ rows;
      code = 0;
      application = find_application cmd.save cmd.argv;
      cleaned = acts;
    })

  unfoldable pub after_launch :
      Command → List (Moment W) → Settings → Moj W St Act → Launch → Outcome (Ending Act)
  unfolding measure moj_clean
  after_launch cmd moments s m (shows_text text code) = do
    acts ← moj_clean m
    returns (record { lines = text ∷ []; code = code; application = none; cleaned = acts })
  after_launch cmd moments s m measuring = measure cmd moments s m

  -- What `moj_init` comes to, and the rest of main.
  unfoldable pub after_start :
      Command → List (Moment W) → Settings → Stage (Moj W St Act) → Outcome (Ending Act)
  unfolding launch after_launch at_exit
  after_start cmd moments s (goes_on m) =
      at_exit m (after_launch cmd moments s m (launch cmd.argv cmd.moj_opts))
  after_start cmd moments s (exits_at code m) = at_exit m (exits code)
  after_start cmd moments s breaks = faults

  -- `flushexit` is registered first; no source is counted in front of `moj_init`.
  unfoldable pub main :
      W → List MojOption → List (Sensor W St Act) → Command → List (Moment W) → Outcome (Ending Act)
  unfolding set_options moj_init after_start at_exit
  main w moj_options sensors cmd moments = do
    s ←
        at_exit {A = Settings} (moj_start {W = W} {St = St} {Act = Act})
          (set_options cmd.answers default_settings)
    after_start cmd moments s (moj_init w moj_options sensors cmd.moj_answers)
