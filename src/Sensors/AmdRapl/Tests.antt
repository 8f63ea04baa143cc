-- ===== src/Sensors/AmdRapl/Tests.antt =====
-- Runs of src/amd_rapl.c, and its theorems at concrete inputs.
use mojit_os.Base.{
  ltb, ◌==◌, if◌then◌else◌, All, returns, ◌>>=◌, ℕ, zero, suc, ◌+◌, ◌-◌, ◌%◌, ◌^◌, ◌<◌, ◌≡◌, refl,
  ◌||◌, some, List, [], ◌∷◌, map, arith,
}
use mojit_os.Base.Text.{u64_mod, codes, starts, bytes_eq, decimal, decimal_int}
use mojit_os.InfoReader.Description.{IsBlock, render}
use mojit_os.Sensors.AmdRapl.{msr_path, get_nb_cpu, choose_sensors, zero_sensor, init_amd_rapl}
use mojit_os.Sensors.AmdRapl.Cores.{firsts, open_all, choose_sensors-firsts}
use mojit_os.Sensors.AmdRapl.Cpuinfo.{CpuEntry, entry_lines, IsEntry, entry_cpu}
use mojit_os.Sensors.AmdRapl.Discovery.{Machine, counted, init_amd_rapl-firsts}
use mojit_os.Sensors.AmdRapl.Energy.{update_cpu_sensor_step}
use mojit_os.Sensors.CpuSensors.{
  CpuSensor, msr_rapl_power_unit, Msrs, raw_to_microjoule, update_cpu_sensor,
}
use mojit_os.Sensors.Reading.{Opened, opened, refused}

abbrev cpu_of : ℕ → ℕ → ℕ → CpuSensor
cpu_of cpu pkg core = record zero_sensor { cpu_id = cpu; package_id = pkg; core_id = core }

abbrev four_cpus : List CpuSensor
four_cpus = cpu_of 0 0 0 ∷ cpu_of 1 0 1 ∷ cpu_of 2 0 0 ∷ cpu_of 3 1 0 ∷ []

-- The files of the processors below 2 open.
abbrev two_files : List ℕ → Opened
two_files path =
    if bytes_eq path (msr_path 0) || bytes_eq path (msr_path 1) then opened 7 else refused 2

test_firsts : firsts [] four_cpus ≡ (cpu_of 0 0 0 ∷ cpu_of 1 0 1 ∷ cpu_of 3 1 0 ∷ [])
test_firsts = refl

test_get_nb_cpu : get_nb_cpu 5 two_files ≡ returns 2
unfolding get_nb_cpu bytes_eq decimal_int decimal
test_get_nb_cpu = refl

choose_sensors-firsts_example :
    choose_sensors two_files four_cpus ≡ open_all two_files (firsts [] four_cpus)
choose_sensors-firsts_example = choose_sensors-firsts two_files four_cpus (omega arith)

abbrev entry_of : ℕ → CpuEntry
entry_of n = record {
  processor = n;
  physical_id = 0;
  core = n;
  before = [];
  between = codes "vendor_id\t: AuthenticAMD" ∷ codes "cpu family\t: 23" ∷ [];
  middle = codes "siblings\t: 2" ∷ [];
  behind = codes "cpu cores\t: 2" ∷ [];
}

abbrev two_entries : List CpuEntry
two_entries = entry_of 0 ∷ entry_of 1 ∷ []

two-Machine : Machine two_files 2
unfolding bytes_eq decimal_int decimal
two-Machine = record {
  fds = λ i. 7;
  errno = 2;
  files = first_two;
  last = refl;
  some_cpu = omega arith;
  few = omega arith;
}
  where
    first_two : (i : ℕ) → i < 2 → two_files (msr_path i) ≡ opened 7
    first_two zero h = refl
    first_two (suc zero) h = refl
    first_two (suc (suc i)) h = absurd (omega arith)

two_entries-IsBlock : All IsBlock (map entry_lines two_entries)
unfolding decimal
two_entries-IsBlock = omega arith

entry_of-IsEntry : (n : ℕ) → n < 2 → IsEntry (entry_of n)
unfolding starts
entry_of-IsEntry n h = record {
  processor_small = omega (arith, h);
  physical_id_small = omega arith;
  core_small = omega (arith, h);
  before_ok = tt;
  between_ok = ((refl, refl, refl), ((refl, refl, refl), tt));
  middle_ok = ((refl, refl, refl), tt);
}

init_amd_rapl-firsts_example :
    init_amd_rapl 3 two_files (some (render (map entry_lines two_entries) []))
    ≡ (open_all two_files (firsts [] (map entry_cpu two_entries)) >>= counted)
init_amd_rapl-firsts_example =
    init_amd_rapl-firsts 3 two_files two_entries [] two-Machine (omega arith) two_entries-IsBlock
      (entry_of-IsEntry 0 (omega arith), (entry_of-IsEntry 1 (omega arith), tt))

-- The values of the repository's test, where the unit is above 31.
test_raw_to_microjoule : raw_to_microjoule 100 1000 ≡ 390625
unfolding raw_to_microjoule
test_raw_to_microjoule = refl

-- The unit of one register reading, and a counter.
abbrev msrs_at : ℕ → Msrs
msrs_at energy fd msr = if msr == msr_rapl_power_unit then some 4096 else some energy

update_cpu_sensor_step_example :
    (s' : CpuSensor) × (update_cpu_sensor
        (msrs_at 100)
        (record zero_sensor { core_energy = raw_to_microjoule 4294967200 16 })
      ≡ returns (
        if ltb (4294967200 + 196) (2 ^ 32)
            then raw_to_microjoule (4294967200 + 196) 16 - raw_to_microjoule 4294967200 16
            else (u64_mod
                - (raw_to_microjoule 4294967200 16
                    - raw_to_microjoule (4294967200 + 196 - 2 ^ 32) 16))
              % u64_mod,
        s',
      ))
update_cpu_sensor_step_example =
    update_cpu_sensor_step (msrs_at 100)
      (record zero_sensor { core_energy = raw_to_microjoule 4294967200 16 }) 16 4294967200 196
      (omega arith) (omega arith) refl
      (record {
        power_unit = 4096;
        energy = 100;
        unit_read = refl;
        energy_read = refl;
        unit_bits = refl;
        energy_bits = refl;
      })
