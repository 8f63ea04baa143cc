-- ===== src/Sources.antt =====
-- Sensors as the sources that src/libmojitos.c calls: the records that its table `sensors` holds for
-- src/memory.c, src/infiniband.c and src/temperature.c, with their states in one type.
mod Reads
mod Keep
mod Tests
use mojit_os.Base.{
  length, Outcome, returns, faults, ◌>>=◌, ℕ, ◌<◌, ◌≡◌, ◌⊎◌, Option, none, some, List, [], ◌∷◌, map,
}
use mojit_os.Libmojitos.{Sensor, MojOption}
use mojit_os.Libmojitos.Options.{Table}
use mojit_os.Sensors.Infiniband.{
  Infiniband, init_infiniband, get_infiniband, clean_infiniband, label_infiniband,
}
use mojit_os.Sensors.Memory.{SysInfo, init_memory, get_memory, label_memory}
use mojit_os.Sensors.Reading.{Files, Shows}
use mojit_os.Sensors.Temperature.{
  Temperature, Hwmon, init_temperature, get_temperature, clean_temperature, label_temperature,
}
use mojit_os.Sensors.Temperature.Tree.{Chip, ShowsChips, chips_size}

-- What a `void *` state points at; `init_memory` sets none.
pub data Source : Type 0 where
  memory_source : Source
  port_source : Option Infiniband → Source
  temps_source : List ℕ → Temperature → Source

-- What the sources can read at a moment.
pub record System : Type 0 where
  pub sysinfo : Option SysInfo
  pub ports : List (List ℕ)
  pub open_port_file : List ℕ → Option ℕ
  pub port_files : Files (Option ℕ)
  pub stack : List ℕ
  pub hwmon : Hwmon
  pub rounds : ℕ
  pub key : ℕ
  pub temp_files : Files ℕ
  -- the static buffer of src/temperature.c before its first use
  pub temp_buffer : List ℕ

-- A file that does not open for reading, or shows a number.
abbrev pub Answers : {D : Type 0} → ℕ → Files D → D → Type 0
Answers count files fd = (files fd ≡ none) ⊎ ((n : ℕ) × Shows count files fd n)

-- A system whose counters hold numbers and whose tree of temperatures is whole.
pub record IsReadable (w : System) : Type 0 where
  pub ports_ok : (fd : Option ℕ) → Answers 127 w.port_files fd
  pub temps_ok : (fd : ℕ) → Answers 100 w.temp_files fd
  pub chips : List Chip
  pub chips_ok : ShowsChips w.hwmon 0 chips
  pub rounds_ok : chips_size chips < w.rounds

pub record ReadableSystem : Type 0 where
  pub system : System
  pub readable : IsReadable system

-- The descriptors that a cleaner closes.
abbrev pub Closed : Type 0
Closed = List (Option ℕ)

unfoldable pub get_memory_source : System → Source → Outcome (ℕ × List (Option ℕ) × Source)
unfolding get_memory
get_memory_source w state = do
  results ← get_memory w.sysinfo
  returns (length results, map some results, state)

unfoldable pub get_port_source : System → Source → Outcome (ℕ × List (Option ℕ) × Source)
unfolding get_infiniband
get_port_source w (port_source (some s)) = do
  (results, s') ← get_infiniband w.port_files w.stack s
  returns (length results, map some results, port_source (some s'))
get_port_source w state = faults

unfoldable pub get_temps_source : System → Source → Outcome (ℕ × List (Option ℕ) × Source)
unfolding get_temperature
get_temps_source w (temps_source buffer t) = do
  (results, buffer', t') ← get_temperature w.temp_files (buffer, t)
  returns (length results, map some results, temps_source buffer' t')
get_temps_source w state = faults

abbrev pub memory_sensor : Sensor ReadableSystem Source Closed
memory_sensor = record {
  init = λ w arg. returns (init_memory w.system.sysinfo, memory_source);
  get = λ w state. get_memory_source w.system state;
  clean = λ state. [];
  label = λ state. label_memory;
  nb_opt = 1;
}

abbrev pub port_descriptors : Source → Closed
port_descriptors (port_source state) = clean_infiniband state
port_descriptors state = []

unfoldable pub init_port : System → Option (List ℕ) → Outcome (ℕ × Source)
unfolding init_infiniband
init_port w arg = do
  (count, state) ← init_infiniband w.ports w.open_port_file w.port_files w.stack arg
  returns (count, port_source state)

abbrev pub infiniband_sensor : Sensor ReadableSystem Source Closed
infiniband_sensor = record {
  init = λ w arg. init_port w.system arg;
  get = λ w state. get_port_source w.system state;
  clean = port_descriptors;
  label = λ state. label_infiniband;
  nb_opt = 1;
}

abbrev pub temps_descriptors : Source → Closed
temps_descriptors (temps_source buffer t) = map some (clean_temperature t)
temps_descriptors state = []

abbrev pub temps_labels : Source → List (List ℕ)
temps_labels (temps_source buffer t) = label_temperature t
temps_labels state = []

-- `key` is the static counter at this start. It numbers the chips, in the labels only; a second start in
-- the same `moj_init` numbers on in the source, which this table does not follow.
unfoldable pub init_temps : System → Option (List ℕ) → Outcome (ℕ × Source)
unfolding init_temperature
init_temps w arg = do
  (count, key, t) ← init_temperature w.rounds w.hwmon w.key
  returns (count, temps_source w.temp_buffer t)

abbrev pub temperature_sensor : Sensor ReadableSystem Source Closed
temperature_sensor = record {
  init = λ w arg. init_temps w.system arg;
  get = λ w state. get_temps_source w.system state;
  clean = temps_descriptors;
  label = temps_labels;
  nb_opt = 1;
}

abbrev pub option_of : ℕ → List MojOption
option_of c = record { shortname = c; fn = none } ∷ []

-- The table, with the options of the three sensors.
abbrev pub source_table : Table ReadableSystem Source Closed
source_table =
    (memory_sensor, option_of b'm')
    ∷ (infiniband_sensor, option_of b'i')
    ∷ (temperature_sensor, option_of b'c')
    ∷ []
