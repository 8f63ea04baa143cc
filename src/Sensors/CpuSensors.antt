-- ===== src/Sensors/CpuSensors.antt =====
-- src/amd_rapl.c: a core as a sensor, its registers, and what /proc/cpuinfo says of it.
use mojit_os.Base.{
  Outcome, returns, exits, ◌>>=◌, ℕ, ◌*◌, ◌/◌, ◌%◌, ◌^◌, Option, none, some, List, [], ◌∷◌,
}
use mojit_os.Base.Text.{codes, atoi}
use mojit_os.InfoReader.{KeyFinder, parse}
use mojit_os.Util.{modulo_substraction}

pub record CpuSensor : Type 0 where
  pub cpu_id : ℕ
  pub package_id : ℕ
  pub core_id : ℕ
  pub name : List ℕ
  pub fd : ℕ
  pub energy_units : ℕ
  pub core_energy : ℕ

-- Registers.

abbrev pub msr_rapl_power_unit : ℕ
msr_rapl_power_unit = 3221291673

abbrev pub energy_core_msr : ℕ
energy_core_msr = 3221291674

-- What `pread` of 8 bytes gives for a descriptor and a register; `none` is anything else than 8 bytes.
abbrev pub Msrs : Type 0
Msrs = ℕ → ℕ → Option ℕ

unfoldable pub read_msr : Msrs → ℕ → ℕ → Outcome ℕ
read_msr msrs fd msr = elim (msrs fd msr) [ none ↦ exits 127 | some data_read ↦ returns data_read ]

-- `(unit & 0x01F00) >> 8`
unfoldable pub read_unit : Msrs → ℕ → Outcome ℕ
unfolding read_msr
read_unit msrs fd = do unit ← read_msr msrs fd msr_rapl_power_unit; returns (unit / 2 ^ 8 % 2 ^ 5)

-- `energy & 0xFFFFFFFF`
unfoldable pub read_raw_core_energy : Msrs → ℕ → Outcome ℕ
unfolding read_msr
read_raw_core_energy msrs fd = do
  energy ← read_msr msrs fd energy_core_msr
  returns (energy % 2 ^ 32)

abbrev pub energy_pkg_msr : ℕ
energy_pkg_msr = 3221291675

unfoldable pub read_raw_pkg_energy : Msrs → ℕ → Outcome ℕ
unfolding read_msr
read_raw_pkg_energy msrs fd = do energy ← read_msr msrs fd energy_pkg_msr; returns (energy % 2 ^ 32)

-- For a raw value below 2^32, as the mask leaves it, the product is below 2^53 and the division is by a
-- power of two, so that the doubles are exact and the cast rounds down. `1U << unit` is defined for a
-- unit below 32, as its mask leaves it; the processors of this file shift by the unit modulo 32.
unfoldable pub raw_to_microjoule : ℕ → ℕ → ℕ
raw_to_microjoule raw unit = raw * 1000000 / 2 ^ (unit % 32)

-- `1UL << unit` for a unit below 64, and a quotient below 2^63, which the cast keeps.
unfoldable pub raw_to_joule : ℕ → ℕ → ℕ
raw_to_joule raw unit = raw / 2 ^ unit

-- The energy since the last call, and the sensor after it.
unfoldable pub update_cpu_sensor : Msrs → CpuSensor → Outcome (ℕ × CpuSensor)
unfolding read_unit read_raw_core_energy
update_cpu_sensor msrs sensor = do
  unit ← read_unit msrs sensor.fd
  raw_core_energy ← read_raw_core_energy msrs sensor.fd
  let core_energy = raw_to_microjoule raw_core_energy unit
  returns (
    modulo_substraction core_energy sensor.core_energy,
    record sensor { energy_units = unit; core_energy = core_energy },
  )

-- /proc/cpuinfo.

unfoldable pub uint_allocator : List ℕ → ℕ
unfolding atoi
uint_allocator s = atoi s

unfoldable pub _set_cpu_id : CpuSensor → ℕ → CpuSensor
_set_cpu_id storage value = record storage { cpu_id = value % 2 ^ 32 }

unfoldable pub _set_package_id : CpuSensor → ℕ → CpuSensor
_set_package_id storage value = record storage { package_id = value % 2 ^ 32 }

unfoldable pub _set_core_id : CpuSensor → ℕ → CpuSensor
_set_core_id storage value = record storage { core_id = value % 2 ^ 32 }

abbrev pub keys_amd_rapl : List (KeyFinder CpuSensor)
keys_amd_rapl =
    record {
      key = codes "processor";
      delimiter = codes ": ";
      copy = uint_allocator;
      set = _set_cpu_id;
    }
    ∷ record {
      key = codes "physical id";
      delimiter = codes ": ";
      copy = uint_allocator;
      set = _set_package_id;
    }
    ∷ record {
      key = codes "core id";
      delimiter = codes ": ";
      copy = uint_allocator;
      set = _set_core_id;
    }
    ∷ []

-- The return value of `parse` and the array. Where `fopen` gives NULL, the first line is already -1, so
-- that `parse` returns 1.
unfoldable pub parse_cpuinfo : Option (List ℕ) → List CpuSensor → ℕ → Outcome (ℕ × List CpuSensor)
unfolding parse
parse_cpuinfo none storage capacity = returns (1, storage)
parse_cpuinfo (some cpuinfo) storage capacity = do
  (code, parser) ← parse (record {
    storage = storage;
    nb_stored = 0;
    capacity = capacity;
    keys = keys_amd_rapl;
    file = cpuinfo;
  })
  returns (code, parser.storage)
