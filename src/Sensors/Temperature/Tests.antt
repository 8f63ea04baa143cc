-- ===== src/Sensors/Temperature/Tests.antt =====
-- The theorems on src/temperature.c at a concrete tree.
use mojit_os.Base.{if◌then◌else◌, length, returns, ℕ, ◌≡◌, refl, some, List, [], ◌∷◌, ◌++◌, arith}
use mojit_os.Base.Text.{codes, starts, bytes_eq, decimal}
use mojit_os.Sensors.Reading.{opened, Readable, missing, holds, Files, Shows}
use mojit_os.Sensors.Temperature.{Hwmon, init_temperature, get_temperature}
use mojit_os.Sensors.Temperature.Chips.{get_temperature-ShowsChips}
use mojit_os.Sensors.Temperature.Tree.{Chip, Printed, ShowsChips, found_temps}

abbrev core_chip : Chip
core_chip = record {
  name = codes "coretemp";
  temps = record { label = codes "Core 0"; fd = 7 } ∷ [];
}

abbrev other_chip : Chip
other_chip = record { name = codes "nvme"; temps = [] }

-- The files of the two chips, by the lengths of their paths and their numbers.
abbrev tree_file : List ℕ → Readable
tree_file path =
    if bytes_eq path (codes "/sys/class/hwmon/hwmon0/name")
    then holds (codes "nvme\n")
    else if bytes_eq path (codes "/sys/class/hwmon/hwmon1/name")
    then holds (codes "coretemp\n")
    else if bytes_eq path (codes "/sys/class/hwmon/hwmon1/temp1_label")
    then holds (codes "Core 0\n")
    else missing

abbrev tree : Hwmon
tree = record { read_file = tree_file; open_file = λ path. opened 7 }

test_init :
    init_temperature 10 tree 3
    ≡ returns (1, 4, record { label_list = codes "Temp_3_Core_0" ∷ []; fid_list = 7 ∷ [] })
unfolding init_temperature decimal bytes_eq
test_init = refl

tree-ShowsChips : ShowsChips tree 0 (other_chip ∷ core_chip ∷ [])
unfolding decimal bytes_eq
tree-ShowsChips = (
  record {
    content = refl;
    printed = ((refl, refl), ((refl, refl), ((refl, refl), ((refl, refl), tt))));
    temps_ok = refl;
  },
  (
    record {
      content = refl;
      printed = printed_core;
      temps_ok = (
        record { content = refl; printed = printed_label; short = omega arith; opens = refl },
        refl,
      );
    },
    refl,
  ),
)
  where
    printed_core : Printed core_chip.name
    printed_core = (
      (refl, refl),
      (
        (refl, refl),
        (
          (refl, refl),
          ((refl, refl), ((refl, refl), ((refl, refl), ((refl, refl), ((refl, refl), tt))))),
        ),
      ),
    )

    printed_label : Printed (codes "Core 0")
    printed_label = (
      (refl, refl),
      ((refl, refl), ((refl, refl), ((refl, refl), ((refl, refl), ((refl, refl), tt))))),
    )

abbrev temp_files : Files ℕ
temp_files fd = some (decimal 45000 ++ (10 ∷ []))

temp_7 : Shows 100 temp_files 7 45000
unfolding decimal
temp_7 = record {
  end = 10;
  more = [];
  content = refl;
  ends = refl;
  fits = omega arith;
  reached = omega arith;
}

get_temperature-ShowsChips_example :
    (init_temperature 10 tree 3
      ≡ returns (
        length (found_temps 3 (other_chip ∷ core_chip ∷ [])).1.label_list,
        (found_temps 3 (other_chip ∷ core_chip ∷ [])).0,
        (found_temps 3 (other_chip ∷ core_chip ∷ [])).1,
      ))
    × (after : List ℕ) × (get_temperature temp_files
          (codes "xx", (found_temps 3 (other_chip ∷ core_chip ∷ [])).1)
        ≡ returns (45000 ∷ [], after, (found_temps 3 (other_chip ∷ core_chip ∷ [])).1))
unfolding starts
get_temperature-ShowsChips_example =
    get_temperature-ShowsChips 10 tree 3 (other_chip ∷ core_chip ∷ []) temp_files (45000 ∷ [])
      (codes "xx") (omega arith) tree-ShowsChips (temp_7, tt)
