-- ===== src/Sensors/AmdRapl/Cpuinfo.antt =====
-- /proc/cpuinfo as the kernel writes it, and what src/amd_rapl.c reads in it.
use mojit_os.Base.{
  ltb, ◌==◌, if◌then◌else◌, Bool-cases, length, take, replicate, All, ℕ, suc, ◌%◌, ◌^◌, ◌<◌, ◌≡◌,
  refl, ap, ◌∙◌, inl, inr, Bool, true, false, ◌&&◌, none, some, List, [], ◌∷◌, ◌++◌, map, arith,
}
use mojit_os.Base.Text.{codes, starts, bytes_eq, decimal}
use mojit_os.InfoReader.{start_with, split_on_delimiter, match}
use mojit_os.InfoReader.Description.{take_line, take_lines, fill, fill_all}
use mojit_os.Sensors.AmdRapl.{zero_sensor}
use mojit_os.Sensors.AmdRapl.Cores.{IsCpu}
use mojit_os.Sensors.CpuSensors.{
  CpuSensor, uint_allocator, _set_cpu_id, _set_package_id, _set_core_id, keys_amd_rapl,
}
use mojit_os.Sensors.Reading.{atoi-decimal}

-- A processor's block: its ids, and the other lines in front of them and behind.
pub record CpuEntry : Type 0 where
  pub processor : ℕ
  pub physical_id : ℕ
  pub core : ℕ
  pub before : List (List ℕ)
  pub between : List (List ℕ)
  pub middle : List (List ℕ)
  pub behind : List (List ℕ)

abbrev pub entry_lines : CpuEntry → List (List ℕ)
entry_lines e =
    e.before
    ++ ((codes "processor\t: " ++ decimal e.processor)
        ∷ (e.between
            ++ ((codes "physical id\t: " ++ decimal e.physical_id)
                ∷ (e.middle ++ ((codes "core id\t\t: " ++ decimal e.core) ∷ e.behind)))))

-- A line of another kind.
abbrev pub IsOther : List ℕ → Type 0
IsOther line =
    (starts (codes "processor") line ≡ false)
    × (starts (codes "physical id") line ≡ false)
    × (starts (codes "core id") line ≡ false)

-- The ids are an `int`, and only the three lines in front of the core's begin like them.
pub record IsEntry (e : CpuEntry) : Type 0 where
  pub processor_small : e.processor < 2 ^ 31
  pub physical_id_small : e.physical_id < 2 ^ 31
  pub core_small : e.core < 2 ^ 31
  pub before_ok : All IsOther e.before
  pub between_ok : All IsOther e.between
  pub middle_ok : All IsOther e.middle

-- The processor that a block is about.
abbrev pub entry_cpu : CpuEntry → CpuSensor
entry_cpu e = record {
  cpu_id = e.processor;
  package_id = e.physical_id;
  core_id = e.core;
  name = [];
  fd = 0;
  energy_units = 0;
  core_energy = 0;
}

ltb-suc : (m n : ℕ) → ltb (suc m) (suc n) ≡ ltb m n
ltb-suc m n = ground arith

and_false : (x : Bool) → false ≡ (x && false)
and_false true = refl
and_false false = refl

start_with-starts : (p s : List ℕ) → start_with (some p) (some s) ≡ starts p s
unfolding start_with bytes_eq starts
start_with-starts [] s = ground arith
start_with-starts (c ∷ p) [] = ground arith
start_with-starts (c ∷ p) (b ∷ s) =
    let ih : (if ltb (length s) (length p) then false else bytes_eq p (take (length p) s))
        ≡ starts p s =
      start_with-starts p s in
    longer (ltb (length s) (length p)) (ltb-suc (length s) (length p)) ih
  where
    longer :
        (short : Bool)
        → ltb (suc (length s)) (suc (length p)) ≡ short
        → (if short then false else bytes_eq p (take (length p) s)) ≡ starts p s
        → (if ltb (suc (length s)) (suc (length p))
            then false
            else bytes_eq (c ∷ p) (take (suc (length p)) (b ∷ s)))
          ≡ starts (c ∷ p) (b ∷ s)
    longer true e ih = rw e (and_false (c == b) ∙ ap (λ x. (c == b) && x) ih)
    longer false e ih = rw e (ap (λ x. (c == b) && x) ih)

match-IsOther : (line : List ℕ) → IsOther line → match keys_amd_rapl line ≡ none
unfolding match
match-IsOther line (a, b, c) =
    rw
      (
        start_with-starts (codes "processor") line,
        a,
        start_with-starts (codes "physical id") line,
        b,
        start_with-starts (codes "core id") line,
        c,
      )
      refl

-- The struct behind a line of a processor, a package and a core.
take_line-processor :
    (s : CpuSensor) (n : ℕ)
    → n < 2 ^ 31
    → take_line keys_amd_rapl 0 s (codes "processor\t: " ++ decimal n)
      ≡ (1, record s { cpu_id = n })
unfolding match split_on_delimiter starts uint_allocator _set_cpu_id
take_line-processor s n small =
    let fits : n % 2 ^ 32 ≡ n = omega arith in
    rw
      (
        start_with-starts (codes "processor") (codes "processor\t: " ++ decimal n),
        atoi-decimal n small,
        fits,
      )
      refl

take_line-package :
    (s : CpuSensor) (n : ℕ)
    → n < 2 ^ 31
    → take_line keys_amd_rapl 1 s (codes "physical id\t: " ++ decimal n)
      ≡ (2, record s { package_id = n })
unfolding match split_on_delimiter starts uint_allocator _set_package_id
take_line-package s n small =
    let line : List ℕ = codes "physical id\t: " ++ decimal n in
    let fits : n % 2 ^ 32 ≡ n = omega arith in
    rw
      (
        start_with-starts (codes "processor") line,
        start_with-starts (codes "physical id") line,
        atoi-decimal n small,
        fits,
      )
      refl

take_line-core :
    (s : CpuSensor) (n : ℕ)
    → n < 2 ^ 31
    → take_line keys_amd_rapl 2 s (codes "core id\t\t: " ++ decimal n)
      ≡ (3, record s { core_id = n })
unfolding match split_on_delimiter starts uint_allocator _set_core_id
take_line-core s n small =
    let line : List ℕ = codes "core id\t\t: " ++ decimal n in
    let fits : n % 2 ^ 32 ≡ n = omega arith in
    rw
      (
        start_with-starts (codes "processor") line,
        start_with-starts (codes "physical id") line,
        start_with-starts (codes "core id") line,
        atoi-decimal n small,
        fits,
      )
      refl

take_line-IsOther :
    (k : ℕ) (s : CpuSensor) (line : List ℕ)
    → IsOther line
    → take_line keys_amd_rapl k s line ≡ (k, s)
take_line-IsOther k s line h = elim (Bool-cases (k == 3)) [
  | inl full ↦ rw full refl
  | inr more ↦ rw (more, match-IsOther line h) refl
]

-- Lines of other kinds are passed over.
take_lines-IsOther :
    (k : ℕ) (s : CpuSensor) (others rest : List (List ℕ))
    → All IsOther others
    → take_lines keys_amd_rapl k s (others ++ rest) ≡ take_lines keys_amd_rapl k s rest
take_lines-IsOther k s [] rest h = refl
take_lines-IsOther k s (line ∷ others) rest (o, h) =
    ap (λ (r : ℕ × CpuSensor). take_lines keys_amd_rapl r.0 r.1 (others ++ rest))
      (take_line-IsOther k s line o)
    ∙ take_lines-IsOther k s others rest h

-- Behind the three ids nothing is read.
take_lines-full :
    (s : CpuSensor) (lines : List (List ℕ)) → take_lines keys_amd_rapl 3 s lines ≡ (3, s)
take_lines-full s [] = refl
take_lines-full s (line ∷ lines) = take_lines-full s lines

fill-IsEntry :
    (e : CpuEntry) → IsEntry e → fill keys_amd_rapl zero_sensor (entry_lines e) ≡ entry_cpu e
fill-IsEntry e h =
    let keys = keys_amd_rapl in
    let after_core = (codes "core id\t\t: " ++ decimal e.core) ∷ e.behind in
    let after_package =
      (codes "physical id\t: " ++ decimal e.physical_id) ∷ (e.middle ++ after_core) in
    let after_processor =
      (codes "processor\t: " ++ decimal e.processor) ∷ (e.between ++ after_package) in
    let one : CpuSensor = record zero_sensor { cpu_id = e.processor } in
    let two : CpuSensor = record one { package_id = e.physical_id } in
    ap (λ (r : ℕ × CpuSensor). r.1)
      (take_lines-IsOther 0 zero_sensor e.before after_processor h.before_ok
        ∙ ap (λ (r : ℕ × CpuSensor). take_lines keys r.0 r.1 (e.between ++ after_package))
            (take_line-processor zero_sensor e.processor h.processor_small)
        ∙ take_lines-IsOther 1 one e.between after_package h.between_ok
        ∙ ap (λ (r : ℕ × CpuSensor). take_lines keys r.0 r.1 (e.middle ++ after_core))
            (take_line-package one e.physical_id h.physical_id_small)
        ∙ take_lines-IsOther 2 two e.middle after_core h.middle_ok
        ∙ ap (λ (r : ℕ × CpuSensor). take_lines keys r.0 r.1 e.behind)
            (take_line-core two e.core h.core_small)
        ∙ take_lines-full (record two { core_id = e.core }) e.behind)

-- Each struct holds the ids of its block.
pub fill_all-IsEntry :
    (entries : List CpuEntry)
    → All IsEntry entries
    → fill_all keys_amd_rapl (replicate (length entries) zero_sensor) (map entry_lines entries)
      ≡ map entry_cpu entries
fill_all-IsEntry [] h = refl
fill_all-IsEntry (e ∷ entries) (he, h) =
    ap
      (λ (c : CpuSensor).
        c
        ∷ fill_all keys_amd_rapl (replicate (length entries) zero_sensor) (map entry_lines entries))
      (fill-IsEntry e he)
    ∙ ap (λ l. entry_cpu e ∷ l) (fill_all-IsEntry entries h)

pub cpus_of-IsCpu :
    (entries : List CpuEntry) → All IsEntry entries → All IsCpu (map entry_cpu entries)
cpus_of-IsCpu [] h = tt
cpus_of-IsCpu (e ∷ entries) (he, h) = (
  record {
    package_small = omega (arith, he.physical_id_small);
    core_small = omega (arith, he.core_small);
  },
  cpus_of-IsCpu entries h,
)
