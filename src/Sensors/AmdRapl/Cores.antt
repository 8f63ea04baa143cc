-- ===== src/Sensors/AmdRapl/Cores.antt =====
-- Which processors src/amd_rapl.c watches: one for each core of each pkg.
use mojit_os.Base.{
  ltb, ◌==◌, if◌then◌else◌, ==_iff, Bool-cases, get_elem?, set, replicate, All, get_elem?-replicate,
  get_elem?-set, All-mono, Outcome, returns, ◌>>=◌, ℕ, ◌+◌, ◌-◌, ◌%◌, ◌^◌, ◌≤◌, ◌<◌, ◌≡◌, refl, sym,
  ap, ◌∙◌, inl, inr, Bool, true, false, ◌&&◌, ◌||◌, Option, none, some, List, [], ◌∷◌, arith,
}
use mojit_os.Sensors.AmdRapl.{
  arch_loop, get_arch, CpuMap, is_duplicate, init_cpu_sensor, sensors_loop, choose_sensors,
}
use mojit_os.Sensors.CpuSensors.{CpuSensor}
use mojit_os.Sensors.Reading.{Opened}

-- Another processor of the same core, among those seen.
abbrev pub seen_core : ℕ → ℕ → List CpuSensor → Bool
seen_core core pkg [] = false
seen_core core pkg (s ∷ seen) =
    (s.core_id == core && s.package_id == pkg) || seen_core core pkg seen

-- The processors that are the first of their core in the list, and whose core was not seen before.
abbrev pub firsts : List CpuSensor → List CpuSensor → List CpuSensor
firsts seen [] = []
firsts seen (cpu ∷ cpus) =
    let rest = firsts seen cpus in
    let more = firsts (cpu ∷ seen) cpus in
    if seen_core cpu.core_id cpu.package_id seen then rest else cpu ∷ more

-- The sensors of all processors, made in order.
abbrev pub open_all : (List ℕ → Opened) → List CpuSensor → Outcome (List CpuSensor)
open_all open_file [] = returns []
open_all open_file (cpu ∷ cpus) = do
  sensor ← init_cpu_sensor open_file cpu
  sensors ← open_all open_file cpus
  returns (sensor ∷ sensors)

-- A cell of the map.
in_row : Option (List ℕ) → ℕ → Option ℕ
in_row none pkg = none
in_row (some row) pkg = get_elem? row pkg

cell : CpuMap → ℕ → ℕ → Option ℕ
cell cpu_map core pkg = in_row (get_elem? cpu_map core) pkg

-- The map marks the cores that were seen.
Marks : ℕ → ℕ → List CpuSensor → CpuMap → Type 0
Marks nb_core nb_package seen cpu_map =
    (core pkg : ℕ)
    → core < nb_core
    → pkg < nb_package
    → cell cpu_map core pkg ≡ some (if seen_core core pkg seen then 1 else 0)

Marks-start :
    (nb_core nb_pkg : ℕ) → Marks nb_core nb_pkg [] (replicate nb_core (replicate nb_pkg 0))
unfolding Marks cell in_row
Marks-start nb_core nb_pkg core pkg hc hp =
    let zeros : List ℕ = replicate nb_pkg 0 in
    rw (get_elem?-replicate nb_core core zeros hc, in_row) (get_elem?-replicate nb_pkg pkg 0 hp)

-- The row of a cell that exists.
cell_row :
    (row : Option (List ℕ)) (pkg v : ℕ)
    → in_row row pkg ≡ some v
    → (cells : List ℕ) × (row ≡ some cells) × (get_elem? cells pkg ≡ some v)
unfolding in_row
cell_row none pkg v h = cc
cell_row (some cells) pkg v h = (cells, refl, h)

cell-mark :
    (cpu_map : CpuMap) (core pkg core' pkg' v w : ℕ) (row : List ℕ)
    → get_elem? cpu_map core ≡ some row
    → get_elem? row pkg ≡ some v
    → cell (set cpu_map core (set row pkg w)) core' pkg'
      ≡ (if core == core' && pkg == pkg' then some w else cell cpu_map core' pkg')
unfolding cell in_row
cell-mark cpu_map core pkg core' pkg' v w row hr hv =
    let outer = get_elem?-set cpu_map core core' row (set row pkg w) hr in
    let inner = get_elem?-set row pkg pkg' v w hv in
    elim (Bool-cases (core == core')) [
      | inl e ↦
          let same : get_elem? cpu_map core' ≡ some row =
            ap (get_elem? cpu_map) (sym ((==_iff core core').0 e)) ∙ hr in
          rw (outer, in_row) (rw e (rw (same, in_row) inner))
      | inr e ↦ rw (outer, in_row) (rw e refl)
    ]

-- Within the map, `is_duplicate` leaves it alone for a core that was seen, and marks it otherwise.
module _ (nb_core nb_pkg : ℕ) (seen : List CpuSensor) (s : CpuSensor) (cpu_map : CpuMap)
    (hc : s.core_id < nb_core) (hp : s.package_id < nb_pkg)
    (marks : Marks nb_core nb_pkg seen cpu_map) where
  is_duplicate-old :
      seen_core s.core_id s.package_id seen ≡ true → is_duplicate s cpu_map ≡ returns (0, cpu_map)
  unfolding Marks cell is_duplicate
  is_duplicate-old e =
      let (row, er, ec) =
        cell_row (get_elem? cpu_map s.core_id) s.package_id _
          (marks s.core_id s.package_id hc hp) in
      rw (er, is_duplicate) (rw (ec, e) refl)

  is_duplicate-new :
      seen_core s.core_id s.package_id seen ≡ false
      → (next : CpuMap) × (is_duplicate s cpu_map ≡ returns (1, next))
        × Marks nb_core nb_pkg (s ∷ seen) next
  unfolding Marks cell is_duplicate
  is_duplicate-new e =
      let (row, er, ec) =
        cell_row (get_elem? cpu_map s.core_id) s.package_id _
          (marks s.core_id s.package_id hc hp) in
      (
        set cpu_map s.core_id (set row s.package_id 1),
        rw (er, is_duplicate) (rw (ec, e) refl),
        λ core pkg hc' hp'.
            let mark = cell-mark cpu_map s.core_id s.package_id core pkg _ 1 row er ec in
            mark ∙ elim (Bool-cases (s.core_id == core && s.package_id == pkg)) [
              | inl h ↦ rw h
              | inr h ↦ rw h (marks core pkg hc' hp')
            ],
      )

-- The loop of `init_amd_rapl` opens the first processor of each core that was not seen.
sensors_loop-firsts :
    (open_file : List ℕ → Opened) (nb_core nb_pkg : ℕ) (cpus seen : List CpuSensor)
    (cpu_map : CpuMap)
    → All (λ (s : CpuSensor). (s.package_id < nb_pkg) × (s.core_id < nb_core)) cpus
    → Marks nb_core nb_pkg seen cpu_map
    → sensors_loop open_file cpus cpu_map ≡ open_all open_file (firsts seen cpus)
unfolding sensors_loop
sensors_loop-firsts open_file nb_core nb_pkg [] seen cpu_map h marks = refl
sensors_loop-firsts open_file nb_core nb_pkg (cpu ∷ cpus) seen cpu_map ((hp, hc), hs) marks =
    elim (Bool-cases (seen_core cpu.core_id cpu.package_id seen)) [
      | inl e ↦
          rw (is_duplicate-old nb_core nb_pkg seen cpu cpu_map hc hp marks e, e)
            (sensors_loop-firsts open_file nb_core nb_pkg cpus seen cpu_map hs marks)
      | inr e ↦
          let (next, run, marks') =
            is_duplicate-new nb_core nb_pkg seen cpu cpu_map hc hp marks e in
          rw (run, e)
            (rw (sensors_loop-firsts open_file nb_core nb_pkg cpus (cpu ∷ seen) next hs marks')
              refl)
    ]

-- The maxima that `get_arch` starts from and that it ends with.
arch_loop-Bounds :
    (top nb_pkg nb_core : ℕ) (cpus : List CpuSensor)
    → nb_pkg ≤ top
    → nb_core ≤ top
    → All (λ (s : CpuSensor). (s.package_id ≤ top) × (s.core_id ≤ top)) cpus
    → let r = arch_loop nb_pkg nb_core cpus in
      (nb_pkg ≤ r.0)
      × (nb_core ≤ r.1)
      × (r.0 ≤ top)
      × (r.1 ≤ top)
      × All (λ (s : CpuSensor). (s.package_id ≤ r.0) × (s.core_id ≤ r.1)) cpus
unfolding arch_loop
arch_loop-Bounds top nb_pkg nb_core [] hp hc h = (omega arith, omega arith, hp, hc, tt)
arch_loop-Bounds top nb_pkg nb_core (s ∷ cpus) hp hc ((hs, ht), h) =
    let (a, b, c, d, all) =
      arch_loop-Bounds top (if ltb nb_pkg s.package_id then s.package_id else nb_pkg)
        (if ltb nb_core s.core_id then s.core_id else nb_core) cpus (ground arith) (ground arith)
        h in
    (ground (arith, a), ground (arith, b), c, d, ((ground (arith, a), ground (arith, b)), all))

-- The ids of a processor fit an `unsigned int`, and 1 can be added to them.
pub record IsCpu (s : CpuSensor) : Type 0 where
  pub package_small : s.package_id ≤ 2 ^ 32 - 2
  pub core_small : s.core_id ≤ 2 ^ 32 - 2

-- Whatever the order of the processors, and however their core and package ids are distributed below
-- 2^32 - 1, the map is never left, and the sensors are made for the processors that are the first of their core and package, in order.
pub choose_sensors-firsts :
    (open_file : List ℕ → Opened) (cpus : List CpuSensor)
    → All IsCpu cpus
    → choose_sensors open_file cpus ≡ open_all open_file (firsts [] cpus)
unfolding choose_sensors get_arch
choose_sensors-firsts open_file cpus h =
    let small =
      All-mono IsCpu (λ (s : CpuSensor). (s.package_id ≤ 2 ^ 32 - 2) × (s.core_id ≤ 2 ^ 32 - 2))
        (λ s c. (c.package_small, c.core_small)) cpus h in
    let (a, b, c, d, all) =
      arch_loop-Bounds (2 ^ 32 - 2) 0 0 cpus (omega arith) (omega arith) small in
    let r = arch_loop 0 0 cpus in
    let inside =
      All-mono (λ (s : CpuSensor). (s.package_id ≤ r.0) × (s.core_id ≤ r.1))
        (λ (s : CpuSensor). (s.package_id < (r.0 + 1) % 2 ^ 32) × (s.core_id < (r.1 + 1) % 2 ^ 32))
        (λ s le. (omega (arith, le.0, c), omega (arith, le.1, d))) cpus all in
    sensors_loop-firsts open_file ((r.1 + 1) % 2 ^ 32) ((r.0 + 1) % 2 ^ 32) cpus [] _ inside
      (Marks-start _ _)
