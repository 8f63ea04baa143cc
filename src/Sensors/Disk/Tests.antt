-- ===== src/Sensors/Disk/Tests.antt =====
-- Runs of src/disk.c, and its theorems at concrete inputs.
use mojit_os.Base.{
  replicate, All, returns, ℕ, ◌≡◌, refl, Option, none, some, List, [], ◌∷◌, ◌++◌, arith,
}
use mojit_os.Base.Text.{codes, decimal}
use mojit_os.Sensors.Deltas.{differences}
use mojit_os.Sensors.Disk.{Disk, after_last_slash, get_disk}
use mojit_os.Sensors.Disk.Rows.{Field, IsField, stat_row, ShowsRow, all_numbers, get_disk-AllRows}
use mojit_os.Sensors.Reading.{Files}
use mojit_os.Util.{NoDigit}

-- A device whose fifteen numbers are all `n`.
abbrev fields_at : ℕ → List Field
fields_at n =
    replicate 14 (record { pad = codes " "; number = n; after = b' ' })
    ++ (record { pad = codes " "; number = n; after = 10 } ∷ [])

abbrev one_disk : Disk
one_disk = record {
  values = replicate 15 2;
  tmp_values = replicate 15 2;
  sources = some 4 ∷ [];
  labels = [];
}

abbrev files_at : ℕ → Files (Option ℕ)
files_at n none = none
files_at n (some fd) = some (stat_row (fields_at n) [])

test_after_last_slash : after_last_slash (codes "/sys/block/sda") ≡ some (codes "sda")
unfolding after_last_slash
test_after_last_slash = refl

row_at : ShowsRow (files_at 12) (some 4) (fields_at 12)
unfolding decimal
row_at = record {
  more = [];
  content = refl;
  all_fields = fields_ok;
  count = refl;
  reached = omega arith;
}
  where
    one : (c : ℕ) → NoDigit c → IsField (record { pad = codes " "; number = 12; after = c })
    one c h = record { pad_ok = (refl, tt); small = omega arith; after_ok = h }

    fields_ok : All IsField (fields_at 12)
    fields_ok =
        let o = one b' ' refl in
        (o, (o, (o, (o, (o, (o, (o, (o, (o, (o, (o, (o, (o, (o, (one 10 refl, tt)))))))))))))))

get_disk-AllRows_example :
    get_disk (files_at 12) (codes "??") one_disk
    ≡ returns (
      differences (all_numbers (fields_at 12 ∷ [])) (replicate 15 2),
      record one_disk {
        values = all_numbers (fields_at 12 ∷ []);
        tmp_values = all_numbers (fields_at 12 ∷ []);
      },
    )
get_disk-AllRows_example =
    get_disk-AllRows (files_at 12) (codes "??") one_disk (fields_at 12 ∷ []) (row_at, tt)
