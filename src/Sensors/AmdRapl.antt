-- ===== src/Sensors/AmdRapl.antt =====
-- src/amd_rapl.c: the energy of the cores of AMD processors, from their model-specific registers.
mod Cores
mod Cpuinfo
mod Discovery
mod Energy
mod Tests
use mojit_os.Base.{
  ltb, ◌==◌, if◌then◌else◌, length, get_elem?, set, take, replicate, Outcome, returns, exits,
  faults, ◌>>=◌, ℕ, zero, suc, ◌+◌, ◌%◌, ◌^◌, Bool, true, false, Option, none, some, List, [], ◌∷◌,
  ◌++◌, map,
}
use mojit_os.Base.Text.{codes, decimal_int}
use mojit_os.Sensors.CpuSensors.{CpuSensor, Msrs, update_cpu_sensor, parse_cpuinfo}
use mojit_os.Sensors.Reading.{Opened, opened, refused}

-- The processors.

abbrev pub msr_path : ℕ → List ℕ
msr_path cpu = take 63 (codes "/dev/cpu/" ++ (decimal_int cpu ++ codes "/msr"))

-- `errno` ENOENT and EACCES
unfoldable pub no_cpu : ℕ → Outcome ℕ
no_cpu errno = if errno == 2 then exits 99 else if errno == 13 then exits 98 else exits 97

-- The end of the loop of `get_nb_cpu` at the first file that does not open.
unfoldable pub end_of_cpus : ℕ → ℕ → Outcome ℕ
unfolding no_cpu
end_of_cpus n_cpu errno = if n_cpu == 0 then no_cpu errno else returns n_cpu

-- The loop on fuel; `faults` without fuel is not the source's.
unfoldable pub nb_cpu_loop : ℕ → (List ℕ → Opened) → ℕ → Outcome ℕ
unfolding end_of_cpus
nb_cpu_loop zero open_file n_cpu = faults
nb_cpu_loop (suc fuel) open_file n_cpu = elim (open_file (msr_path n_cpu)) [
  | opened fd ↦ nb_cpu_loop fuel open_file ((n_cpu + 1) % 2 ^ 32)
  | refused errno ↦ end_of_cpus n_cpu errno
]

unfoldable pub get_nb_cpu : ℕ → (List ℕ → Opened) → Outcome ℕ
unfolding nb_cpu_loop
get_nb_cpu fuel open_file = nb_cpu_loop fuel open_file 0

-- The loop of `get_arch`, from the maxima so far on.
unfoldable pub arch_loop : ℕ → ℕ → List CpuSensor → ℕ × ℕ
arch_loop nb_package nb_core [] = (nb_package, nb_core)
arch_loop nb_package nb_core (s ∷ sensors) =
    arch_loop (if ltb nb_package s.package_id then s.package_id else nb_package)
      (if ltb nb_core s.core_id then s.core_id else nb_core) sensors

-- `*ret_nb_package` and `*ret_nb_core`
unfoldable pub get_arch : List CpuSensor → ℕ × ℕ
unfolding arch_loop
get_arch sensors =
    let (nb_package, nb_core) = arch_loop 0 0 sensors in
    ((nb_package + 1) % 2 ^ 32, (nb_core + 1) % 2 ^ 32)

unfoldable pub get_name : ℕ → List ℕ
unfolding decimal_int
get_name cpu_id = take 19 (codes "core" ++ decimal_int cpu_id)

-- `unsigned char map[nb_core][nb_package]`
abbrev pub CpuMap : Type 0
CpuMap = List (List ℕ)

-- Returns 0 for a duplicate, in spite of its name. Outside the map that is undefined.
unfoldable pub is_duplicate : CpuSensor → CpuMap → Outcome (ℕ × CpuMap)
is_duplicate sensor cpu_map = elim (get_elem? cpu_map sensor.core_id) [
  | none ↦ faults
  | some row ↦ elim (get_elem? row sensor.package_id) [
    | none ↦ faults
    | some cell ↦
        if cell == 1
        then returns (0, cpu_map)
        else returns
            (1, set cpu_map sensor.core_id (set row sensor.package_id ((cell + 1) % 2 ^ 8)))
  ]
]

unfoldable pub init_cpu_sensor : (List ℕ → Opened) → CpuSensor → Outcome CpuSensor
unfolding get_name
init_cpu_sensor open_file cpu_info = elim (open_file (msr_path cpu_info.cpu_id)) [
  | refused errno ↦ exits 127
  | opened fd ↦ returns (record cpu_info { name = get_name cpu_info.cpu_id; fd = fd })
]

-- One round: the sensor is made first if the processor is not a duplicate, then the loop goes on.
abbrev pub keep_sensor :
    Bool → Outcome CpuSensor → Outcome (List CpuSensor) → Outcome (List CpuSensor)
keep_sensor false made more = more
keep_sensor true made more = do sensor ← made; sensors ← more; returns (sensor ∷ sensors)

-- The loop of `init_amd_rapl` over `cpu_information`: the sensors.
unfoldable pub sensors_loop : (List ℕ → Opened) → List CpuSensor → CpuMap → Outcome (List CpuSensor)
unfolding is_duplicate init_cpu_sensor
sensors_loop open_file [] cpu_map = returns []
sensors_loop open_file (cpu ∷ cpus) cpu_map = do
  (is_new, cpu_map') ← is_duplicate cpu cpu_map
  keep_sensor (is_new == 1) (init_cpu_sensor open_file cpu) (sensors_loop open_file cpus cpu_map')

-- The part of `init_amd_rapl` behind the parsing.
unfoldable pub choose_sensors : (List ℕ → Opened) → List CpuSensor → Outcome (List CpuSensor)
unfolding get_arch sensors_loop
choose_sensors open_file cpu_information =
    let (nb_package, nb_core) = get_arch cpu_information in
    sensors_loop open_file cpu_information (replicate nb_core (replicate nb_package 0))

-- `calloc`
abbrev pub zero_sensor : CpuSensor
zero_sensor = record {
  cpu_id = 0;
  package_id = 0;
  core_id = 0;
  name = [];
  fd = 0;
  energy_units = 0;
  core_energy = 0;
}

-- The return value is the number of sensors in the state.
unfoldable pub init_amd_rapl :
    ℕ → (List ℕ → Opened) → Option (List ℕ) → Outcome (ℕ × List CpuSensor)
unfolding get_nb_cpu parse_cpuinfo choose_sensors
init_amd_rapl fuel open_file cpuinfo = do
  max_cpus ← get_nb_cpu fuel open_file
  (code, cpu_information) ← parse_cpuinfo cpuinfo (replicate max_cpus zero_sensor) max_cpus
  sensors ← (if code == 0 then choose_sensors open_file cpu_information else exits 1)
  returns (length sensors, sensors)

-- The return value is the number of sensors; here it is the length of the results.
unfoldable pub get_amd_rapl : Msrs → List CpuSensor → Outcome (List ℕ × List CpuSensor)
unfolding update_cpu_sensor
get_amd_rapl msrs [] = returns ([], [])
get_amd_rapl msrs (s ∷ sensors) = do
  (energy_consumed, s') ← update_cpu_sensor msrs s
  (results, sensors') ← get_amd_rapl msrs sensors
  returns (energy_consumed ∷ results, s' ∷ sensors')

unfoldable pub label_amd_rapl : List CpuSensor → List (List ℕ)
label_amd_rapl sensors = map (λ s. s.name) sensors

-- The descriptors that are closed.
unfoldable pub clean_amd_rapl : List CpuSensor → List ℕ
clean_amd_rapl sensors = map (λ s. s.fd) sensors
