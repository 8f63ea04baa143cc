-- ===== src/Sensors/Temperature.antt =====
-- src/temperature.c: the temperatures of the processor's cores, from the files of /sys/class/hwmon.
pub mod Tree
mod Text
pub mod Chips
mod Tests
use mojit_os.Base.{
  ◌==◌, if◌then◌else◌, length, take, Outcome, returns, exits, faults, ◌>>=◌, ℕ, zero, suc, ◌+◌,
  Option, none, some, List, [], ◌∷◌, ◌++◌,
}
use mojit_os.Base.Text.{codes, upto, cstr, bytes_eq, decimal}
use mojit_os.Sensors.Reading.{
  Opened, opened, refused, Readable, missing, unreadable, holds, Files, read_values,
}

-- `nb_elem` is the length of both lists.
pub record Temperature : Type 0 where
  pub label_list : List (List ℕ)
  pub fid_list : List ℕ

-- What the program finds below /sys.
pub record Hwmon : Type 0 where
  pub read_file : List ℕ → Readable
  pub open_file : List ℕ → Opened

-- The string in the buffer, or `none` for -1. The buffers are longer than `max_size`.
unfoldable pub get_string : Readable → ℕ → Option (List ℕ)
unfolding upto
get_string missing max_size = none
get_string unreadable max_size = none
get_string (holds content) max_size = some (cstr (take max_size content))

unfoldable pub add_to_list : List (List ℕ) → List ℕ → List (List ℕ)
add_to_list list_name source = list_name ++ (source ∷ [])

-- The loop over the bytes of a label: a space becomes `_`, and a newline ends the string.
unfoldable pub tidy : List ℕ → List ℕ
tidy [] = []
tidy (c ∷ s) = if c == b' ' then b'_' ∷ tidy s else if c == b'\n' then [] else c ∷ tidy s

abbrev pub chip_path : ℕ → List ℕ
chip_path id_rep = codes "/sys/class/hwmon/hwmon" ++ (decimal id_rep ++ codes "/name")

abbrev pub temp_path : ℕ → ℕ → List ℕ → List ℕ
temp_path id_rep i file =
    codes "/sys/class/hwmon/hwmon" ++ (decimal id_rep ++ (codes "/temp" ++ (decimal i ++ file)))

-- The rest of a round behind `get_string`: the label, and the descriptor of the input file.
unfoldable pub add_input : List ℕ → Opened → Temperature → Outcome Temperature
unfolding add_to_list
add_input label (refused errno) state = exits 1
add_input label (opened fd) state = returns (record {
  label_list = add_to_list state.label_list label;
  fid_list = state.fid_list ++ (fd ∷ []);
})

-- The body of the loop behind `get_string`, which stops without a label. `prefix` is the `Temp_%d_` at
-- the start of `buffer_label`.
unfoldable pub after_label :
    Hwmon
    → List ℕ
    → ℕ
    → ℕ
    → Temperature
    → (Temperature → Outcome Temperature)
    → Option (List ℕ)
    → Outcome Temperature
unfolding tidy add_input
after_label sys prefix id_rep i state loop none = returns state
after_label sys prefix id_rep i state loop (some label) = do
  state' ←
      add_input (tidy (prefix ++ label)) (sys.open_file (temp_path id_rep i (codes "_input"))) state
  loop state'

-- `for (int i = 1;; i++)`, on fuel; `faults` without fuel is not the source's.
unfoldable pub temp_loop : ℕ → Hwmon → List ℕ → ℕ → ℕ → Temperature → Outcome Temperature
unfolding get_string after_label
temp_loop zero sys prefix id_rep i state = faults
temp_loop (suc fuel) sys prefix id_rep i state =
    after_label sys prefix id_rep i state
      (λ state'. temp_loop fuel sys prefix id_rep (i + 1) state')
      (get_string (sys.read_file (temp_path id_rep i (codes "_label"))) 100)

-- The static `key` is an argument and a result.
unfoldable pub add_temperature_sensor : ℕ → Hwmon → ℕ → ℕ × Temperature → Outcome (ℕ × Temperature)
unfolding temp_loop
add_temperature_sensor fuel sys id_rep (key, state) = do
  state' ← temp_loop fuel sys (codes "Temp_" ++ (decimal key ++ codes "_")) id_rep 1 state
  returns (key + 1, state')

-- The body of the loop over the directories, for the string that `name` holds.
unfoldable pub add_chip : ℕ → Hwmon → ℕ → List ℕ → ℕ × Temperature → Outcome (ℕ × Temperature)
unfolding add_temperature_sensor bytes_eq
add_chip fuel sys i name (key, state) =
    if bytes_eq name (codes "coretemp")
    then add_temperature_sensor fuel sys i (key, state)
    else returns (key, state)

unfoldable pub after_chip :
    ℕ
    → Hwmon
    → ℕ
    → ℕ × Temperature
    → (ℕ × Temperature → Outcome (ℕ × Temperature))
    → Option (List ℕ)
    → Outcome (ℕ × Temperature)
unfolding add_chip
after_chip fuel sys i keyed loop none = returns keyed
after_chip fuel sys i keyed loop (some name) = do
  keyed' ← add_chip fuel sys i name keyed
  loop keyed'

-- `while (get_string(name, buffer, 8) != -1)`, on fuel.
unfoldable pub chip_loop : ℕ → Hwmon → ℕ → ℕ × Temperature → Outcome (ℕ × Temperature)
unfolding after_chip get_string
chip_loop zero sys i keyed = faults
chip_loop (suc fuel) sys i keyed =
    after_chip fuel sys i keyed (λ keyed'. chip_loop fuel sys (i + 1) keyed')
      (get_string (sys.read_file (chip_path i)) 8)

-- The return value, the new `key`, and the state.
unfoldable pub init_temperature : ℕ → Hwmon → ℕ → Outcome (ℕ × ℕ × Temperature)
unfolding chip_loop
init_temperature fuel sys key = do
  (key', state) ← chip_loop fuel sys 0 (key, record { label_list = []; fid_list = [] })
  returns (length state.label_list, key', state)

-- The static buffer of 512 bytes is an argument and a result. The return value is `nb_elem`; here it is
-- the length of the results.
unfoldable pub get_temperature :
    Files ℕ → List ℕ × Temperature → Outcome (List ℕ × List ℕ × Temperature)
unfolding read_values
get_temperature files (buffer, state) = do
  (results, buffer') ← read_values 100 files state.fid_list buffer
  returns (results, buffer', state)

-- The descriptors that are closed.
unfoldable pub clean_temperature : Temperature → List ℕ
clean_temperature state = state.fid_list

unfoldable pub label_temperature : Temperature → List (List ℕ)
label_temperature state = state.label_list
