-- ===== src/Libmojitos.antt =====
-- src/libmojitos.c: the sources of measures that the options ask for, and their values.
pub mod Options
pub mod Invariant
pub mod Values
pub mod Written
pub mod Tests
use mojit_os.Base.{
  ◌==◌, if◌then◌else◌, get_elem?, replicate, Outcome, returns, exits, faults, ◌>>=◌, ℕ, zero, suc,
  ◌+◌, ◌-◌, Option, none, some, List, [], ◌∷◌, ◌++◌,
}

-- Cells of an array that `realloc` has made are `none` until they are written.
abbrev pub Cells {ℓ} : Type ℓ → Type ℓ
Cells A = List (Option A)

-- Writes from `cells[offset]` on; outside the array that is undefined.
unfoldable pub write_at {ℓ} : {A : Type ℓ} → Cells A → ℕ → List A → Outcome (Cells A)
write_at cells zero [] = returns cells
write_at [] zero (v ∷ vs) = faults
write_at (c ∷ cells) zero (v ∷ vs) = do rest ← write_at cells zero vs; returns (some v ∷ rest)
write_at [] (suc offset) vs = faults
write_at (c ∷ cells) (suc offset) vs = do rest ← write_at cells offset vs; returns (c ∷ rest)

abbrev pub over {ℓ} : {A : Type ℓ} → Option A → Option A → Option A
over c none = c
over c (some v) = some v

-- The same for writes that leave some places out.
unfoldable pub write_over {ℓ} : {A : Type ℓ} → Cells A → ℕ → List (Option A) → Outcome (Cells A)
write_over cells zero [] = returns cells
write_over [] zero (none ∷ vs) = write_over [] zero vs
write_over [] zero (some v ∷ vs) = faults
write_over (c ∷ cells) zero (v ∷ vs) = do rest ← write_over cells zero vs; returns (over c v ∷ rest)
write_over [] (suc offset) vs = faults
write_over (c ∷ cells) (suc offset) vs = do rest ← write_over cells offset vs; returns (c ∷ rest)

-- `W` is what a call can read of the system at that moment, `St` what a `void *` state points at, and
-- `Act` what a cleaner does to the system. A label is a C string.

-- The return value, what is written to `results`, and the new state. `none` is a place of `results` that
-- the getter leaves as it is.
abbrev pub Getter : Type 0 → Type 0 → Type 0
Getter W St = W → St → Outcome (ℕ × List (Option ℕ) × St)

abbrev pub Cleaner : Type 0 → Type 0 → Type 0
Cleaner St Act = St → Act

-- `struct Sensor`. `init` takes the option's argument, `none` for NULL.
pub record Sensor (W St Act : Type 0) : Type 0 where
  pub init : W → Option (List ℕ) → Outcome (ℕ × St)
  pub get : Getter W St
  pub clean : Cleaner St Act
  pub label : St → List (List ℕ)
  pub nb_opt : ℕ

-- What the program uses of `struct optparse_long`.
pub record MojOption : Type 0 where
  pub shortname : ℕ
  -- `fn(NULL, 0)`
  pub fn : Option (Outcome (Unit {0}))

-- The global variables of the library.
pub record Moj (W St Act : Type 0) : Type 0 where
  pub nb_sources : ℕ
  pub nb_sensors : ℕ
  pub labels : Cells (List ℕ)
  pub values : Cells ℕ
  pub states : List St
  pub getter : List (Getter W St)
  pub cleaner : List (Cleaner St Act)

-- `for (int j = 0; j < sensors[s_idx].nb_opt; j++)` from `opt_idx` on: the matching option, or the
-- index behind the options of this sensor.
unfoldable pub match_option : List MojOption → ℕ → ℕ → ℕ → Outcome (Option MojOption × ℕ)
match_option opts opt zero opt_idx = returns (none, opt_idx)
match_option opts opt (suc left) opt_idx = elim (get_elem? opts opt_idx) [
  | none ↦ faults
  | some o ↦
      if opt == o.shortname
      then returns (some o, opt_idx)
      else match_option opts opt left (opt_idx + 1)
]

module _ {W St : Type 0} where
  -- The loop of `moj_get_values`, from the source that writes at `current` on.
  unfoldable pub get_values_loop :
      W → ℕ → List (Getter W St) → List St → Cells ℕ → Outcome (List St × Cells ℕ)
  get_values_loop w current [] states values = returns (states, values)
  get_values_loop w current (get ∷ getter) [] values = faults
  get_values_loop w current (get ∷ getter) (state ∷ states) values = do
    (count, written, state') ← get w state
    values' ← write_over values current written
    (states', values'') ← get_values_loop w (current + count) getter states values'
    returns (state' ∷ states', values'')

module _ {St Act : Type 0} where
  -- What the cleaners of the first `nb_sources` places do, in order. A cleaner or a state that is not
  -- set is read all the same.
  unfoldable pub clean_loop : ℕ → List (Cleaner St Act) → List St → Outcome (List Act)
  clean_loop zero cleaner states = returns []
  clean_loop (suc left) [] states = faults
  clean_loop (suc left) (clean ∷ cleaner) [] = faults
  clean_loop (suc left) (clean ∷ cleaner) (state ∷ states) = do
    acts ← clean_loop left cleaner states
    returns (clean state ∷ acts)

-- What a call that changes the globals does: it returns with them, or the process exits while they
-- stand so, which a function given to `atexit` sees; or its behaviour is undefined.
pub data Stage (M : Type 0) : Type 0 where
  goes_on : M → Stage M
  exits_at : ℕ → M → Stage M
  breaks : Stage M

-- A call that leaves the globals `m` alone, and what follows it.
abbrev pub beside : {A M : Type 0} → M → Outcome A → (A → Stage M) → Stage M
beside m (returns a) next = next a
beside m (exits code) next = exits_at code m
beside m faults next = breaks

abbrev pub and_then : {M : Type 0} → Stage M → (M → Stage M) → Stage M
and_then (goes_on m) next = next m
and_then (exits_at code m) next = exits_at code m
and_then breaks next = breaks

module _ {W St Act : Type 0} where
  abbrev pub moj_start : Moj W St Act
  moj_start = record {
    nb_sources = 0;
    nb_sensors = 0;
    labels = [];
    values = [];
    states = [];
    getter = [];
    cleaner = [];
  }

  -- `nb_sources++` at the start of `add_source`. The new place of `states` is not written yet.
  abbrev pub counted_source : Moj W St Act → Moj W St Act
  counted_source m = record m { nb_sources = m.nb_sources + 1 }

  -- The part of `add_source` behind `init`, which gave `nb` and the state; the source is counted.
  unfoldable pub add_initialised : Sensor W St Act → ℕ × St → Moj W St Act → Outcome (Moj W St Act)
  add_initialised cpt (nb, state) m =
      if nb == 0 then returns (record m { nb_sources = m.nb_sources - 1 }) else (do
        labels ← write_at (m.labels ++ replicate nb none) m.nb_sensors (cpt.label state)
        returns (record {
          nb_sources = m.nb_sources;
          nb_sensors = m.nb_sensors + nb;
          labels = labels;
          values = m.values ++ replicate nb none;
          states = m.states ++ (state ∷ []);
          getter = m.getter ++ (cpt.get ∷ []);
          cleaner = m.cleaner ++ (cpt.clean ∷ []);
        }))

  -- The source is counted in front of `init`, and has no getter and no cleaner until `init` is back.
  unfoldable pub add_source :
      W → Sensor W St Act → Option (List ℕ) → Moj W St Act → Stage (Moj W St Act)
  unfolding add_initialised
  add_source w cpt arg m = beside (counted_source m) (cpt.init w arg) (λ started.
      beside (counted_source m) (add_initialised cpt started (counted_source m)) goes_on)

  -- `for (int s_idx = 0; s_idx < NB_SENSOR && !ismatch; s_idx++)`: the sensor and its option.
  unfoldable pub match_sensor :
      List MojOption
      → ℕ
      → List (Sensor W St Act)
      → ℕ
      → Outcome (Option (Sensor W St Act × MojOption))
  unfolding match_option
  match_sensor opts opt [] opt_idx = returns none
  match_sensor opts opt (s ∷ sensors) opt_idx = do
    (found, next) ← match_option opts opt s.nb_opt opt_idx
    elim found [ none ↦ match_sensor opts opt sensors next | some o ↦ returns (some (s, o)) ]

  -- The matched option either has an action of its own or starts its sensor.
  unfoldable pub start_option :
      W
      → Sensor W St Act
      → Option (Outcome (Unit {0}))
      → Option (List ℕ)
      → Moj W St Act
      → Stage (Moj W St Act)
  start_option w s none optarg m = add_source w s optarg m
  start_option w s (some fn) optarg m = beside m fn (λ _. goes_on m)

  unfoldable pub start_match :
      W
      → Option (Sensor W St Act × MojOption)
      → Option (List ℕ)
      → Moj W St Act
      → Stage (Moj W St Act)
  unfolding start_option
  start_match w none optarg m = goes_on m
  start_match w (some (s, o)) optarg m = start_option w s o.fn optarg m

  -- One option that `optparse_long` gave, with `options.optarg`.
  unfoldable pub handle_option :
      W
      → List MojOption
      → List (Sensor W St Act)
      → ℕ × Option (List ℕ)
      → Moj W St Act
      → Stage (Moj W St Act)
  unfolding start_match
  handle_option w opts sensors (opt, optarg) m =
      beside m (match_sensor opts opt sensors 0) (λ found. start_match w found optarg m)

  -- The loop of `moj_init`. The list holds the answers of `optparse_long` up to its -1.
  unfoldable pub init_loop :
      W
      → List MojOption
      → List (Sensor W St Act)
      → List (ℕ × Option (List ℕ))
      → Moj W St Act
      → Stage (Moj W St Act)
  init_loop w opts sensors [] m = goes_on m
  init_loop w opts sensors (option ∷ options) m =
      and_then (handle_option w opts sensors option m) (λ m'. init_loop w opts sensors options m')

  -- The return value is `nb_sensors` of the globals.
  unfoldable pub moj_init :
      W
      → List MojOption
      → List (Sensor W St Act)
      → List (ℕ × Option (List ℕ))
      → Stage (Moj W St Act)
  unfolding init_loop
  moj_init w opts sensors options = init_loop w opts sensors options moj_start

  unfoldable pub moj_labels : Moj W St Act → Cells (List ℕ)
  moj_labels m = m.labels

  unfoldable pub moj_get_values : W → Moj W St Act → Outcome (Moj W St Act)
  unfolding get_values_loop
  moj_get_values w m = do
    (states, values) ← get_values_loop w 0 m.getter m.states m.values
    returns (record m { states = states; values = values })

  unfoldable pub moj_clean : Moj W St Act → Outcome (List Act)
  unfolding clean_loop
  moj_clean m = clean_loop m.nb_sources m.cleaner m.states
