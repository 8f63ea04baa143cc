-- ===== src/Sensors/NvidiaSensors.antt =====
-- src/nvidia_gpu.c: the sensors of one NVIDIA device: clocks, memory, utilization, power, temperature.
use mojit_os.Base.{
  ◌==◌, if◌then◌else◌, length, take, Outcome, returns, exits, ◌>>=◌, ℕ, ◌-◌, Option, none, some,
  List, [], ◌∷◌, ◌++◌, map,
}
use mojit_os.Base.Text.{codes, decimal}

-- What the NVML library answers at one moment; `none` is any result but NVML_SUCCESS. Devices are
-- numbers.
pub record Nvml : Type 0 where
  pub handle_by_index : ℕ → Option ℕ
  pub device_name : ℕ → Option (List ℕ)
  pub clock_info : ℕ → ℕ → Option ℕ
  -- free, used and total
  pub memory_info : ℕ → Option (ℕ × ℕ × ℕ)
  -- gpu and memory
  pub utilization_rates : ℕ → Option (ℕ × ℕ)
  pub power_usage : ℕ → Option ℕ
  pub temperature : ℕ → Option ℕ

-- What the cleaners release, in order: the data of a sensor, the arrays, and the library.
pub data NvidiaFree : Type 0 where
  sensor_data : NvidiaFree
  devices_array : NvidiaFree
  nvidia_struct : NvidiaFree
  nvml_shutdown : NvidiaFree

-- `struct ISensor`; `D` is what `void *data` points at. `init` takes the device and its index, and is
-- `none` where it returns 0 without data.
pub record ISensor (D : Type 0) : Type 0 where
  pub init : Nvml → ℕ → ℕ → Option (ℕ × D)
  pub get : Nvml → ℕ → D → Outcome (List ℕ)
  pub label : D → List (List ℕ)
  pub clean : D → List NvidiaFree

-- `struct Sensor` with its data.
pub record NvSensor : Type 1 where
  pub Data : Type 0
  pub fun : ISensor Data
  pub content : Data

-- `"gpu%u_%s_%s"` and `"gpu%u_%s"` in an array of `size` bytes
abbrev pub long_label : ℕ → ℕ → List ℕ → List ℕ → List ℕ
long_label size idx base name =
    take (size - 1) (codes "gpu" ++ (decimal idx ++ (codes "_" ++ (base ++ (codes "_" ++ name)))))

abbrev pub short_label : ℕ → ℕ → List ℕ → List ℕ
short_label size idx base = take (size - 1) (codes "gpu" ++ (decimal idx ++ (codes "_" ++ base)))

-- Clocks. The numbers are those of `nvmlClockType_t`.

abbrev pub clocks : List (ℕ × List ℕ)
clocks = (0, codes "graphics") ∷ (1, codes "sm") ∷ (2, codes "memory") ∷ (3, codes "video") ∷ []

-- `count` is the length.
abbrev pub ClockData : Type 0
ClockData = List (ℕ × List ℕ)

-- A clock is kept if it answers.
unfoldable pub test_clock : Option ℕ → ℕ × List ℕ → ClockData → ClockData
test_clock none clock_label tested = tested
test_clock (some clock) clock_label tested = clock_label ∷ tested

-- The loop over `clocks`: the type and the label of each clock that answers.
unfoldable pub test_clocks : Nvml → ℕ → ℕ → List (ℕ × List ℕ) → ClockData
unfolding test_clock
test_clocks nvml device idx [] = []
test_clocks nvml device idx ((clock_type, name) ∷ rest) =
    test_clock (nvml.clock_info device clock_type)
      (clock_type, long_label 25 idx (codes "clk") name) (test_clocks nvml device idx rest)

unfoldable pub init_clock_sensor : Nvml → ℕ → ℕ → Option (ℕ × ClockData)
unfolding test_clocks
init_clock_sensor nvml device idx =
    let tmp = test_clocks nvml device idx clocks in
    if length tmp == 0 then none else some (length tmp, tmp)

-- A failed query ends the process.
abbrev pub or_exit : Option ℕ → Outcome ℕ
or_exit none = exits 99
or_exit (some v) = returns v

unfoldable pub get_clock_sensor : Nvml → ℕ → ClockData → Outcome (List ℕ)
get_clock_sensor nvml device [] = returns []
get_clock_sensor nvml device ((clock_type, label) ∷ clock_data) = do
  clock ← or_exit (nvml.clock_info device clock_type)
  results ← get_clock_sensor nvml device clock_data
  returns (clock ∷ results)

unfoldable pub label_clock_sensor : ClockData → List (List ℕ)
label_clock_sensor clock_data = map (λ (c : ℕ × List ℕ). c.1) clock_data

unfoldable pub clean_clock_sensor : ClockData → List NvidiaFree
clean_clock_sensor content = sensor_data ∷ []

-- The other sensors keep their labels only; a sensor that does not answer is not started.

unfoldable pub if_answered : {A B : Type 0} → Option A → B → Option B
if_answered none content = none
if_answered (some a) content = some content

abbrev pub memory_names : List (List ℕ)
memory_names = codes "free" ∷ codes "used" ∷ codes "total" ∷ []

unfoldable pub init_memory_sensor : Nvml → ℕ → ℕ → Option (ℕ × List (List ℕ))
unfolding if_answered
init_memory_sensor nvml device idx =
    if_answered (nvml.memory_info device) (3, map (long_label 25 idx (codes "mem")) memory_names)

unfoldable pub memory_results : Option (ℕ × ℕ × ℕ) → Outcome (List ℕ)
memory_results none = exits 99
memory_results (some (free, used, whole)) = returns (free ∷ used ∷ whole ∷ [])

unfoldable pub get_memory_sensor : Nvml → ℕ → List (List ℕ) → Outcome (List ℕ)
unfolding memory_results
get_memory_sensor nvml device labels = memory_results (nvml.memory_info device)

unfoldable pub label_memory_sensor : List (List ℕ) → List (List ℕ)
label_memory_sensor labels = labels

unfoldable pub clean_memory_sensor : List (List ℕ) → List NvidiaFree
clean_memory_sensor content = sensor_data ∷ []

abbrev pub utilization_names : List (List ℕ)
utilization_names = codes "gpu" ∷ codes "memory" ∷ []

unfoldable pub init_utilization_sensor : Nvml → ℕ → ℕ → Option (ℕ × List (List ℕ))
unfolding if_answered
init_utilization_sensor nvml device idx =
    if_answered (nvml.utilization_rates device)
      (2, map (long_label 35 idx (codes "utilization")) utilization_names)

unfoldable pub utilization_results : Option (ℕ × ℕ) → Outcome (List ℕ)
utilization_results none = exits 99
utilization_results (some (gpu, memory)) = returns (gpu ∷ memory ∷ [])

unfoldable pub get_utilization_sensor : Nvml → ℕ → List (List ℕ) → Outcome (List ℕ)
unfolding utilization_results
get_utilization_sensor nvml device labels = utilization_results (nvml.utilization_rates device)

unfoldable pub label_utilization_sensor : List (List ℕ) → List (List ℕ)
label_utilization_sensor labels = labels

unfoldable pub clean_utilization_sensor : List (List ℕ) → List NvidiaFree
clean_utilization_sensor content = sensor_data ∷ []

unfoldable pub init_power_sensor : Nvml → ℕ → ℕ → Option (ℕ × List ℕ)
unfolding if_answered
init_power_sensor nvml device idx =
    if_answered (nvml.power_usage device) (1, short_label 25 idx (codes "power"))

unfoldable pub get_power_sensor : Nvml → ℕ → List ℕ → Outcome (List ℕ)
get_power_sensor nvml device label = do
  power ← or_exit (nvml.power_usage device)
  returns (power ∷ [])

unfoldable pub label_power_sensor : List ℕ → List (List ℕ)
label_power_sensor label = label ∷ []

unfoldable pub clean_power_sensor : List ℕ → List NvidiaFree
clean_power_sensor content = sensor_data ∷ []

unfoldable pub init_temperature_sensor : Nvml → ℕ → ℕ → Option (ℕ × List ℕ)
unfolding if_answered
init_temperature_sensor nvml device idx =
    if_answered (nvml.temperature device) (1, short_label 35 idx (codes "temperature"))

unfoldable pub get_temperature_sensor : Nvml → ℕ → List ℕ → Outcome (List ℕ)
get_temperature_sensor nvml device label = do
  degrees ← or_exit (nvml.temperature device)
  returns (degrees ∷ [])

unfoldable pub label_temperature_sensor : List ℕ → List (List ℕ)
label_temperature_sensor label = label ∷ []

unfoldable pub clean_temperature_sensor : List ℕ → List NvidiaFree
clean_temperature_sensor content = sensor_data ∷ []

-- The entries of `avaible_sensors`.

abbrev pub clock_fun : ISensor ClockData
clock_fun = record {
  init = init_clock_sensor;
  get = get_clock_sensor;
  label = label_clock_sensor;
  clean = clean_clock_sensor;
}

abbrev pub memory_fun : ISensor (List (List ℕ))
memory_fun = record {
  init = init_memory_sensor;
  get = get_memory_sensor;
  label = label_memory_sensor;
  clean = clean_memory_sensor;
}

abbrev pub utilization_fun : ISensor (List (List ℕ))
utilization_fun = record {
  init = init_utilization_sensor;
  get = get_utilization_sensor;
  label = label_utilization_sensor;
  clean = clean_utilization_sensor;
}

abbrev pub power_fun : ISensor (List ℕ)
power_fun = record {
  init = init_power_sensor;
  get = get_power_sensor;
  label = label_power_sensor;
  clean = clean_power_sensor;
}

abbrev pub temperature_fun : ISensor (List ℕ)
temperature_fun = record {
  init = init_temperature_sensor;
  get = get_temperature_sensor;
  label = label_temperature_sensor;
  clean = clean_temperature_sensor;
}
