-- ===== src/Sensors/AmdRapl/Energy.antt =====
-- The energies that src/amd_rapl.c reports, against the 32-bit counter that they come from.
use mojit_os.Base.{
  ltb, if◌then◌else◌, Bool-cases, All, Outcome, returns, exits, faults, Ensures, Ensures-bind, ℕ,
  zero, suc, ◌+◌, ◌-◌, ◌*◌, ◌/◌, ◌%◌, ◌^◌, ◌≤◌, ◌<◌, ◌≡◌, refl, ap, ◌∙◌, inl, inr, some, List, [],
  ◌∷◌, map, arith,
}
use mojit_os.Base.Text.{u64_mod}
use mojit_os.Sensors.AmdRapl.{get_amd_rapl}
use mojit_os.Sensors.CpuSensors.{
  CpuSensor, msr_rapl_power_unit, energy_core_msr, Msrs, read_msr, read_unit, read_raw_core_energy,
  raw_to_microjoule, update_cpu_sensor,
}
use mojit_os.Sensors.Deltas.{IsU64, add_into, run, run_total}
use mojit_os.Util.{modulo_substraction}
use mathlib.Core.List.{foldl}
use native.Mathlib.Nat.{le-div_iff_mul-le, div-mul-le_self, div-le_self, le_trans}

pow_pos : (u : ℕ) → 0 < 2 ^ u
pow_pos zero = omega arith
pow_pos (suc u) = omega (arith, pow_pos u)

div_mono : (k a b : ℕ) → 0 < k → a ≤ b → a / k ≤ b / k
div_mono k a b pos le = (le-div_iff_mul-le pos).1 (le_trans (div-mul-le_self a k) le)

raw_to_microjoule_mono :
    (a b unit : ℕ) → a ≤ b → raw_to_microjoule a unit ≤ raw_to_microjoule b unit
unfolding raw_to_microjoule
raw_to_microjoule_mono a b unit le =
    div_mono (2 ^ (unit % 32)) (a * 1000000) (b * 1000000) (pow_pos (unit % 32)) (omega arith)

-- Far below 2^63.
raw_to_microjoule_bound : (raw unit : ℕ) → raw < 2 ^ 32 → raw_to_microjoule raw unit < 2 ^ 52
unfolding raw_to_microjoule
raw_to_microjoule_bound raw unit h = omega (arith, div-le_self (raw * 1000000) (2 ^ (unit % 32)))

-- The registers of a descriptor at one moment: the unit, and the counter.
pub record Registers (msrs : Msrs) (fd unit counter : ℕ) : Type 0 where
  pub power_unit : ℕ
  pub energy : ℕ
  pub unit_read : msrs fd msr_rapl_power_unit ≡ some power_unit
  pub energy_read : msrs fd energy_core_msr ≡ some energy
  pub unit_bits : power_unit / 2 ^ 8 % 2 ^ 5 ≡ unit
  pub energy_bits : energy % 2 ^ 32 ≡ counter

read_unit-Registers :
    (msrs : Msrs) (fd unit counter : ℕ)
    → Registers msrs fd unit counter
    → read_unit msrs fd ≡ returns unit
unfolding read_unit read_msr
read_unit-Registers msrs fd unit counter r = rw (r.unit_read, read_msr) (rw r.unit_bits)

read_raw_core_energy-Registers :
    (msrs : Msrs) (fd unit counter : ℕ)
    → Registers msrs fd unit counter
    → read_raw_core_energy msrs fd ≡ returns counter
unfolding read_raw_core_energy read_msr
read_raw_core_energy-Registers msrs fd unit counter r =
    rw (r.energy_read, read_msr) (rw r.energy_bits)

update_cpu_sensor-Registers :
    (msrs : Msrs) (s : CpuSensor) (unit counter : ℕ)
    → Registers msrs s.fd unit counter
    → update_cpu_sensor msrs s
      ≡ returns (
        modulo_substraction (raw_to_microjoule counter unit) s.core_energy,
        record s { energy_units = unit; core_energy = raw_to_microjoule counter unit },
      )
unfolding update_cpu_sensor
update_cpu_sensor-Registers msrs s unit counter r = rw (
  read_unit-Registers msrs s.fd unit counter r,
  read_raw_core_energy-Registers msrs s.fd unit counter r,
)

-- The difference after the conversion to microjoules.
difference :
    (raw step unit : ℕ)
    → raw < 2 ^ 32
    → step < 2 ^ 32
    → modulo_substraction
        (raw_to_microjoule ((raw + step) % 2 ^ 32) unit)
        (raw_to_microjoule raw unit)
      ≡ (if ltb (raw + step) (2 ^ 32)
          then raw_to_microjoule (raw + step) unit - raw_to_microjoule raw unit
          else (u64_mod
              - (raw_to_microjoule raw unit - raw_to_microjoule (raw + step - 2 ^ 32) unit))
            % u64_mod)
unfolding modulo_substraction
difference raw step unit hr hs = elim (Bool-cases (ltb (raw + step) (2 ^ 32))) [
  | inl e ↦
      let here : (raw + step) % 2 ^ 32 ≡ raw + step = ground arith in
      rw (e, here) (ground (arith, raw_to_microjoule_mono raw (raw + step) unit (omega arith)))
  | inr e ↦
      let here : (raw + step) % 2 ^ 32 ≡ raw + step - 2 ^ 32 = ground arith in
      rw (e, here)
        (ground (
          arith,
          raw_to_microjoule_mono (raw + step - 2 ^ 32) raw unit (omega arith),
          raw_to_microjoule_bound raw unit hr,
        ))
]

-- When the 32-bit counter of a core, which stood at `raw` at the last call, has moved on by `step`, the
-- result is the energy of that step in microjoules, each end rounded down, as long as the counter did
-- not wrap. When it did, the result is not an energy: it is 2^64 less the way from the new value up to
-- the old one.
pub update_cpu_sensor_step :
    (msrs : Msrs) (s : CpuSensor) (unit raw step : ℕ)
    → raw < 2 ^ 32
    → step < 2 ^ 32
    → s.core_energy ≡ raw_to_microjoule raw unit
    → Registers msrs s.fd unit ((raw + step) % 2 ^ 32)
    → (s' : CpuSensor) × (update_cpu_sensor msrs s
        ≡ returns (
          if ltb (raw + step) (2 ^ 32)
              then raw_to_microjoule (raw + step) unit - raw_to_microjoule raw unit
              else (u64_mod
                  - (raw_to_microjoule raw unit - raw_to_microjoule (raw + step - 2 ^ 32) unit))
                % u64_mod,
          s',
        ))
update_cpu_sensor_step msrs s unit raw step hr hs old regs =
    let now = (raw + step) % 2 ^ 32 in
    (
      record s { energy_units = unit; core_energy = raw_to_microjoule now unit },
      update_cpu_sensor-Registers msrs s unit now regs
          ∙ ap
              (λ (e : ℕ).
                returns
                  (e, record s { energy_units = unit; core_energy = raw_to_microjoule now unit }))
              (ap (modulo_substraction (raw_to_microjoule now unit)) old
                ∙ difference raw step unit hr hs),
    )

-- Each energy is a uint64_t.
abbrev pub IsAmdRapl : List CpuSensor → Type 0
IsAmdRapl = All (λ (s : CpuSensor). IsU64 s.core_energy)

abbrev pub energies : List CpuSensor → List ℕ
energies = map (λ (s : CpuSensor). s.core_energy)

update_cpu_sensor_moves :
    (msrs : Msrs) (s : CpuSensor)
    → IsU64 s.core_energy
    → Ensures
        (λ (r : ℕ × CpuSensor).
          IsU64 r.1.core_energy × ((s.core_energy + r.0) % u64_mod ≡ r.1.core_energy))
        (update_cpu_sensor msrs s)
unfolding update_cpu_sensor read_raw_core_energy modulo_substraction
update_cpu_sensor_moves msrs s h =
    Ensures-bind _ (λ (u : ℕ). Unit) (read_unit msrs s.fd) _ (anything (read_unit msrs s.fd))
      (λ unit _.
        Ensures-bind _ (λ (e : ℕ). e < 2 ^ 32) (read_raw_core_energy msrs s.fd) _
          (Ensures-bind _ (λ (u : ℕ). Unit) (read_msr msrs s.fd energy_core_msr) _
            (anything (read_msr msrs s.fd energy_core_msr)) (λ e _. omega arith))
          (λ raw small.
            let bound = raw_to_microjoule_bound raw unit small in
            (omega (arith, bound), ground (arith, bound))))
  where
    anything : (m : Outcome ℕ) → Ensures (λ (u : ℕ). Unit) m
    anything (returns a) = tt
    anything (exits c) = tt
    anything faults = tt

get_amd_rapl_moves :
    (msrs : Msrs) (sensors : List CpuSensor)
    → IsAmdRapl sensors
    → Ensures
        (λ (r : List ℕ × List CpuSensor).
          IsAmdRapl r.1 × (add_into (energies sensors) r.0 ≡ energies r.1))
        (get_amd_rapl msrs sensors)
unfolding get_amd_rapl
get_amd_rapl_moves msrs [] h = (tt, refl)
get_amd_rapl_moves msrs (s ∷ sensors) (h, hs) =
    Ensures-bind _ _ (update_cpu_sensor msrs s) _ (update_cpu_sensor_moves msrs s h) (λ a ha.
      Ensures-bind _ _ (get_amd_rapl msrs sensors) _ (get_amd_rapl_moves msrs sensors hs)
        (λ b hb. ((ha.0, hb.0), rw (ha.1, hb.1))))

-- Over any sequence of calls of `get_amd_rapl` that all return, the sums of each sensor's results,
-- modulo 2^64, lead from its energy at the start to its last one.
pub get_amd_rapl_total :
    (calls : List Msrs) (sensors : List CpuSensor)
    → IsAmdRapl sensors
    → Ensures
        (λ (r : List (List ℕ) × List CpuSensor).
          foldl add_into (energies sensors) r.0 ≡ energies r.1)
        (run get_amd_rapl calls sensors)
get_amd_rapl_total calls sensors h =
    run_total get_amd_rapl energies IsAmdRapl get_amd_rapl_moves calls sensors h
