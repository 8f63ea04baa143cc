-- ===== src/Sensors/Temperature/Tree.antt =====
-- A tree of hwmon directories, and the temperatures in it.
use mojit_os.Base.{
  ◌==◌, if◌then◌else◌, length, All, ℕ, suc, ◌+◌, ◌<◌, ◌≡◌, Bool, false, List, [], ◌∷◌, ◌++◌,
}
use mojit_os.Base.Text.{codes, starts, decimal}
use mojit_os.Sensors.Reading.{opened, missing, holds}
use mojit_os.Sensors.Temperature.{Temperature, Hwmon, chip_path, temp_path}

-- A temperature: the text of its label file in front of the newline, and its input file's descriptor.
pub record Temp : Type 0 where
  pub label : List ℕ
  pub fd : ℕ

-- A directory of /sys/class/hwmon.
pub record Chip : Type 0 where
  pub name : List ℕ
  pub temps : List Temp

-- Text without NUL and newline.
abbrev pub Printed : List ℕ → Type 0
Printed = All (λ (b : ℕ). ((b == 0) ≡ false) × ((b == b'\n') ≡ false))

pub record ShowsTemp (sys : Hwmon) (id_rep i : ℕ) (t : Temp) : Type 0 where
  pub content :
      sys.read_file (temp_path id_rep i (codes "_label")) ≡ holds (t.label ++ (b'\n' ∷ []))
  pub printed : Printed t.label
  pub short : length t.label < 100
  pub opens : sys.open_file (temp_path id_rep i (codes "_input")) ≡ opened t.fd

-- The temperatures from the index `i` on, and no further one.
abbrev pub ShowsTemps : Hwmon → ℕ → ℕ → List Temp → Type 0
ShowsTemps sys id_rep i [] = sys.read_file (temp_path id_rep i (codes "_label")) ≡ missing
ShowsTemps sys id_rep i (t ∷ temps) = ShowsTemp sys id_rep i t × ShowsTemps sys id_rep (i + 1) temps

pub record ShowsChip (sys : Hwmon) (id_rep : ℕ) (chip : Chip) : Type 0 where
  pub content : sys.read_file (chip_path id_rep) ≡ holds (chip.name ++ (b'\n' ∷ []))
  pub printed : Printed chip.name
  pub temps_ok : ShowsTemps sys id_rep 1 chip.temps

-- The directories from `id_rep` on, and no further one.
abbrev pub ShowsChips : Hwmon → ℕ → List Chip → Type 0
ShowsChips sys id_rep [] = sys.read_file (chip_path id_rep) ≡ missing
ShowsChips sys id_rep (chip ∷ chips) = ShowsChip sys id_rep chip × ShowsChips sys (id_rep + 1) chips

-- Each space replaced.
abbrev pub underscores : List ℕ → List ℕ
underscores [] = []
underscores (c ∷ s) = (if c == b' ' then b'_' else c) ∷ underscores s

abbrev pub is_core : Chip → Bool
is_core chip = starts (codes "coretemp") chip.name

abbrev pub temp_prefix : ℕ → List ℕ
temp_prefix key = codes "Temp_" ++ (decimal key ++ codes "_")

abbrev pub temp_labels : ℕ → List Temp → List (List ℕ)
temp_labels key [] = []
temp_labels key (t ∷ temps) = (temp_prefix key ++ underscores t.label) ∷ temp_labels key temps

abbrev pub temp_fds : List Temp → List ℕ
temp_fds [] = []
temp_fds (t ∷ temps) = t.fd ∷ temp_fds temps

-- The temperatures of the chips whose name begins with coretemp, on top of a state; `key` numbers them.
abbrev pub with_chips : List Chip → ℕ × Temperature → ℕ × Temperature
with_chips [] keyed = keyed
with_chips (chip ∷ chips) (key, state) = with_chips chips (
    if is_core chip
    then (
      key + 1,
      record {
        label_list = state.label_list ++ temp_labels key chip.temps;
        fid_list = state.fid_list ++ temp_fds chip.temps;
      },
    )
    else (key, state))

-- A state with the temperatures of a chip.
abbrev pub with_temps : ℕ → List Temp → Temperature → Temperature
with_temps key temps state = record {
  label_list = state.label_list ++ temp_labels key temps;
  fid_list = state.fid_list ++ temp_fds temps;
}

-- The rounds that the chips take.
abbrev pub chips_size : List Chip → ℕ
chips_size [] = 0
chips_size (chip ∷ chips) = suc (length chip.temps + chips_size chips)

-- What is found in the tree, on top of nothing.
abbrev pub found_temps : ℕ → List Chip → ℕ × Temperature
found_temps key chips = with_chips chips (key, record { label_list = []; fid_list = [] })
