-- ===== src/Sensors/Rapl.antt =====
-- src/rapl.c: the energies of Intel's running average power limits, from the powercap files.
mod Zones
mod Steps
mod Tests
use mojit_os.Base.{
  ◌==◌, if◌then◌else◌, length, take, replicate, is_empty, Outcome, returns, exits, faults, ◌>>=◌, ℕ,
  zero, suc, ◌+◌, ◌-◌, ◌%◌, ◌^◌, Option, none, some, List, [], ◌∷◌, ◌++◌,
}
use mojit_os.Base.Text.{codes, cstr, strtoull, decimal_int}
use mojit_os.Sensors.Reading.{
  Opened, opened, refused, Readable, missing, unreadable, holds, Files, read_values,
}
use mojit_os.Util.{modulo_substraction_bound}

abbrev pub max_header : ℕ
max_header = 128

-- All bytes but the last.
abbrev pub but_last : List ℕ → List ℕ
but_last [] = []
but_last (c ∷ []) = []
but_last (c ∷ (d ∷ s)) = c ∷ but_last (d ∷ s)

-- The last byte that was read is overwritten by the terminating NUL. Without a byte, the NUL is written
-- in front of the array.
unfoldable pub get_rapl_string : Readable → Outcome (Option (List ℕ))
get_rapl_string missing = returns none
get_rapl_string unreadable = faults
get_rapl_string (holds content) =
    if is_empty content then faults else returns (some (cstr (but_last (take max_header content))))

-- `%d` behind the name, in an array of `buffer_size` bytes.
unfoldable pub append : List ℕ → ℕ → ℕ → List ℕ
unfolding decimal_int
append name i buffer_size = name ++ take (buffer_size - length name - 1) (decimal_int i)

-- `nb` is the length of the first three lists.
pub record IntelRapl : Type 0 where
  pub names : List (List ℕ)
  pub fids : List ℕ
  pub modulo : List ℕ
  pub values : List ℕ
  pub tmp_values : List ℕ

-- `energy_uj` is what `open` answers.
unfoldable pub add_rapl_source : IntelRapl → List ℕ → ℕ → Opened → Outcome IntelRapl
add_rapl_source rapl name modulo (refused errno) = exits 1
add_rapl_source rapl name modulo (opened fd) = returns (record rapl {
  names = rapl.names ++ (name ∷ []);
  fids = rapl.fids ++ (fd ∷ []);
  modulo = rapl.modulo ++ (modulo ∷ []);
})

-- The readings, and the static buffer of 512 bytes, of which `pread` writes the first 100 at most, so
-- that a NUL always follows.
unfoldable pub _get_rapl : Files ℕ → List ℕ → List ℕ → Outcome (List ℕ × List ℕ)
unfolding read_values
_get_rapl files buffer fids = read_values 100 files fids buffer

-- What the program finds below /sys.
pub record Powercap : Type 0 where
  pub read_file : List ℕ → Readable
  pub open_file : List ℕ → Opened

-- `strtoull` of the string, which is undefined on NULL.
unfoldable pub parse_modulo : Option (List ℕ) → Outcome ℕ
unfolding strtoull
parse_modulo none = faults
parse_modulo (some s) = returns (strtoull s).0

-- The part of `add_rapl_source_from_str` behind the name. `level` is `none` for -1.
unfoldable pub add_named :
    Powercap → IntelRapl → List ℕ → Option ℕ → Option (List ℕ) → Outcome (ℕ × IntelRapl)
unfolding get_rapl_string parse_modulo append add_rapl_source
add_named sys rapl base level none = returns (0, rapl)
add_named sys rapl base level (some tmp) = do
  range ← get_rapl_string (sys.read_file (base ++ codes "max_energy_range_uj"))
  modulo ← parse_modulo range
  rapl' ←
      add_rapl_source rapl (elim level [ none ↦ tmp | some i ↦ append tmp i max_header ]) modulo
        (sys.open_file (base ++ codes "energy_uj"))
  returns (1, rapl')

-- `base` is the path that `name_base` and `i` make up; it is far shorter than the buffers.
unfoldable pub add_rapl_source_from_str :
    Powercap → IntelRapl → List ℕ → Option ℕ → Outcome (ℕ × IntelRapl)
unfolding add_named
add_rapl_source_from_str sys rapl base level = do
  tmp ← get_rapl_string (sys.read_file (base ++ codes "name"))
  add_named sys rapl base level tmp

abbrev pub zone_path : ℕ → List ℕ
zone_path i =
    codes "/sys/devices/virtual/powercap/intel-rapl/intel-rapl:" ++ (decimal_int i ++ codes "/")

abbrev pub subzone_path : ℕ → ℕ → List ℕ
subzone_path i j =
    zone_path i
    ++ (codes "intel-rapl:" ++ (decimal_int i ++ (codes ":" ++ (decimal_int j ++ codes "/"))))

-- `for (unsigned int j = 0;; j++)`, on fuel; `faults` without fuel is not the source's. `found` is what
-- the body's call gave.
unfoldable pub subzone_loop : ℕ → Powercap → ℕ → ℕ → IntelRapl → Outcome IntelRapl
unfolding add_rapl_source_from_str
subzone_loop zero sys i j rapl = faults
subzone_loop (suc fuel) sys i j rapl = do
  (found, rapl') ← add_rapl_source_from_str sys rapl (subzone_path i j) (some i)
  if found == 0 then returns rapl' else subzone_loop fuel sys i ((j + 1) % 2 ^ 32) rapl'

-- `for (unsigned int i = 0;; i++)`, on fuel.
unfoldable pub zone_loop : ℕ → Powercap → ℕ → IntelRapl → Outcome IntelRapl
unfolding subzone_loop
zone_loop zero sys i rapl = faults
zone_loop (suc fuel) sys i rapl = do
  (found, rapl') ← add_rapl_source_from_str sys rapl (zone_path i) none
  if found == 0 then returns rapl' else (do
    rapl'' ← subzone_loop fuel sys i 0 rapl'
    zone_loop fuel sys ((i + 1) % 2 ^ 32) rapl'')

abbrev pub no_rapl : IntelRapl
no_rapl = record { names = []; fids = []; modulo = []; values = []; tmp_values = [] }

-- The return value is the number of names.
unfoldable pub init_rapl : ℕ → Powercap → Files ℕ → List ℕ → Outcome (ℕ × List ℕ × IntelRapl)
unfolding zone_loop _get_rapl
init_rapl fuel sys files buffer = do
  rapl ← zone_loop fuel sys 0 no_rapl
  (values, buffer') ← _get_rapl files buffer rapl.fids
  returns (
    length rapl.names,
    buffer',
    record rapl { values = values; tmp_values = replicate (length rapl.names) 0 },
  )

-- `results[i] = modulo_substraction_bound(tmp_values[i], values[i], modulo[i])` for every index.
abbrev pub bound_deltas : List ℕ → List ℕ → List ℕ → List ℕ
bound_deltas (t ∷ tmp_values) (v ∷ values) (m ∷ modulo) =
    modulo_substraction_bound t v m ∷ bound_deltas tmp_values values modulo
bound_deltas tmp_values values modulo = []

-- The return value is `nb`; here it is the length of the results.
unfoldable pub get_rapl : Files ℕ → List ℕ × IntelRapl → Outcome (List ℕ × List ℕ × IntelRapl)
unfolding _get_rapl
get_rapl files (buffer, state) = do
  (tmp_values, buffer') ← _get_rapl files buffer state.fids
  returns (
    bound_deltas tmp_values state.values state.modulo,
    buffer',
    record state { values = tmp_values; tmp_values = tmp_values },
  )

-- The descriptors that are closed.
unfoldable pub clean_rapl : IntelRapl → List ℕ
clean_rapl rapl = rapl.fids

unfoldable pub label_rapl : IntelRapl → List (List ℕ)
label_rapl rapl = rapl.names
