-- ===== src/Sensors/AmdRapl/Discovery.antt =====
-- What src/amd_rapl.c starts on a whole machine: its processors, their description and their sensors.
use mojit_os.Base.{
  length, replicate, All, length-replicate, length-map, Outcome, returns, ◌>>=◌, ℕ, zero, suc, ◌+◌,
  ◌%◌, ◌^◌, ◌<◌, ◌≡◌, refl, sym, ap, ◌∙◌, some, List, [], map, zero-add, arith,
}
use mojit_os.InfoReader.Blocks.{parse-render_full}
use mojit_os.InfoReader.Description.{IsBlock, render, fill_all}
use mojit_os.Sensors.AmdRapl.{
  msr_path, end_of_cpus, nb_cpu_loop, get_nb_cpu, zero_sensor, init_amd_rapl,
}
use mojit_os.Sensors.AmdRapl.Cores.{firsts, open_all, IsCpu, choose_sensors-firsts}
use mojit_os.Sensors.AmdRapl.Cpuinfo.{
  CpuEntry, entry_lines, IsEntry, entry_cpu, fill_all-IsEntry, cpus_of-IsCpu,
}
use mojit_os.Sensors.CpuSensors.{CpuSensor, keys_amd_rapl, parse_cpuinfo}
use mojit_os.Sensors.Reading.{Opened, opened, refused}
use mathlib.Core.Path.{subst}

nb_cpu_loop-count :
    (fuel left n errno : ℕ) (open_file : List ℕ → Opened) (fds : ℕ → ℕ)
    → ((i : ℕ) → i < n + left → open_file (msr_path i) ≡ opened (fds i))
    → open_file (msr_path (n + left)) ≡ refused errno
    → left < fuel
    → n + left < 2 ^ 32
    → nb_cpu_loop fuel open_file n ≡ end_of_cpus (n + left) errno
unfolding nb_cpu_loop
nb_cpu_loop-count zero left n errno open_file fds h absent few small = absurd (omega arith)
nb_cpu_loop-count (suc fuel) zero n errno open_file fds h absent few small =
    let here : n + 0 ≡ n = omega arith in rw here (rw ((rw here at absent), nb_cpu_loop) refl)
nb_cpu_loop-count (suc fuel) (suc left) n errno open_file fds h absent few small =
    let more : n + suc left ≡ n + 1 + left = omega arith in
    let next : (n + 1) % 2 ^ 32 ≡ n + 1 = omega arith in
    rw (h n (omega arith), nb_cpu_loop)
      (rw (next, more)
        (nb_cpu_loop-count fuel left (n + 1) errno open_file fds (λ i hi. h i (omega arith))
          (rw more at absent) (omega arith) (omega arith)))

-- A machine of `n` processors: their files open, the next one does not.
pub record Machine (open_file : List ℕ → Opened) (n : ℕ) : Type 0 where
  pub fds : ℕ → ℕ
  pub errno : ℕ
  pub files : (i : ℕ) → i < n → open_file (msr_path i) ≡ opened (fds i)
  pub last : open_file (msr_path n) ≡ refused errno
  pub some_cpu : 0 < n
  pub few : n < 2 ^ 32

get_nb_cpu-Machine :
    (fuel n : ℕ) (open_file : List ℕ → Opened)
    → Machine open_file n
    → n < fuel
    → get_nb_cpu fuel open_file ≡ returns n
unfolding get_nb_cpu end_of_cpus
get_nb_cpu-Machine fuel n open_file machine enough =
    let count =
      nb_cpu_loop-count fuel n 0 machine.errno open_file machine.fds
        (λ i h. machine.files i (omega arith)) (rw zero-add machine.last) enough
        (rw zero-add machine.few) in
    count ∙ rw zero-add (ground (arith, machine.some_cpu))

-- The state and its length.
abbrev pub counted : List CpuSensor → Outcome (ℕ × List CpuSensor)
counted sensors = returns (length sensors, sensors)

init_amd_rapl-blocks :
    (fuel n : ℕ) (open_file : List ℕ → Opened) (blocks : List (List (List ℕ))) (rest : List ℕ)
    → Machine open_file n
    → n < fuel
    → All IsBlock blocks
    → length blocks ≡ n
    → All IsCpu (fill_all keys_amd_rapl (replicate n zero_sensor) blocks)
    → init_amd_rapl fuel open_file (some (render blocks rest)) ≡ (
        open_all open_file (firsts [] (fill_all keys_amd_rapl (replicate n zero_sensor) blocks))
        >>= counted)
unfolding init_amd_rapl parse_cpuinfo
init_amd_rapl-blocks fuel n open_file blocks rest machine enough hb same ids =
    let slots : List CpuSensor = replicate n zero_sensor in
    let long : length slots ≡ n = length-replicate n zero_sensor in
    let parsed =
      parse-render_full keys_amd_rapl slots blocks rest hb (omega (arith, long, machine.some_cpu))
        (omega (arith, long)) in
    rw (get_nb_cpu-Machine fuel n open_file machine enough) (
      rw (rw long at parsed)
        (rw (choose_sensors-firsts open_file (fill_all keys_amd_rapl slots blocks) ids) refl))

-- On a machine of some processors, with an entry of cpuinfo for each, whose lines `processor`,
-- `physical id` and `core id` stand in this order, with other lines between them, and give ids below
-- 2^31 in decimal, and with enough fuel: `init_amd_rapl` makes one sensor for each pair of the core ids
-- and the physical ids in cpuinfo, for the first processor that has it, in order, and returns their
-- number; it ends the process when such a processor's file fails.
pub init_amd_rapl-firsts :
    (fuel : ℕ) (open_file : List ℕ → Opened) (entries : List CpuEntry) (rest : List ℕ)
    → Machine open_file (length entries)
    → length entries < fuel
    → All IsBlock (map entry_lines entries)
    → All IsEntry entries
    → init_amd_rapl fuel open_file (some (render (map entry_lines entries) rest))
      ≡ (open_all open_file (firsts [] (map entry_cpu entries)) >>= counted)
init_amd_rapl-firsts fuel open_file entries rest machine more hb h =
    let filled = fill_all-IsEntry entries h in
    init_amd_rapl-blocks fuel (length entries) open_file (map entry_lines entries) rest machine more
      hb (length-map entry_lines entries) (subst (All IsCpu) (sym filled) (cpus_of-IsCpu entries h))
    ∙ ap (λ l. open_all open_file (firsts [] l) >>= counted) filled
