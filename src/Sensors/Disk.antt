-- ===== src/Sensors/Disk.antt =====
-- src/disk.c: the statistics of the block devices.
mod Rows
mod Totals
mod Tests
use mojit_os.Base.{
  ltb, ◌==◌, if◌then◌else◌, length, take, Outcome, returns, exits, faults, ◌>>=◌, ℕ, zero, suc, ◌*◌,
  Option, none, some, List, [], ◌∷◌, ◌++◌, map,
}
use mojit_os.Base.Text.{codes}
use mojit_os.Sensors.Deltas.{differences}
use mojit_os.Sensors.Reading.{Files, pread_into}
use mojit_os.Util.{read_int}

abbrev pub disk_values_size : ℕ
disk_values_size = 15

-- `nb` is the length of `sources`; `values` and `tmp_values` hold 15 numbers for each. The -1 of a
-- failed `open` is `none`.
pub record Disk : Type 0 where
  pub values : List ℕ
  pub tmp_values : List ℕ
  pub sources : List (Option ℕ)
  pub labels : List (List ℕ)

-- The loop over the numbers of a device, from `ptr` on.
unfoldable pub read_ints : ℕ → List ℕ → Outcome (List ℕ)
unfolding read_int
read_ints zero ptr = returns []
read_ints (suc count) ptr = do
  (value, ptr') ← read_int ptr
  values ← read_ints count ptr'
  returns (value ∷ values)

-- `pread` into the buffer with its error branch, and the numbers of the device.
unfoldable pub read_disk : List ℕ → Option (List ℕ) → Outcome (List ℕ × List ℕ)
unfolding read_ints
read_disk disk_buffer none = exits 1
read_disk disk_buffer (some content) = do
  values ← read_ints disk_values_size (pread_into disk_buffer 1023 content)
  returns (values, pread_into disk_buffer 1023 content)

-- The new `values`. `disk_buffer` is the uninitialised array `char disk_buffer[1024]`.
unfoldable pub _get_disk : Files (Option ℕ) → List ℕ → List (Option ℕ) → Outcome (List ℕ)
unfolding read_disk
_get_disk files disk_buffer [] = returns []
_get_disk files disk_buffer (fd ∷ sources) = do
  (values, disk_buffer') ← read_disk disk_buffer (files fd)
  more ← _get_disk files disk_buffer' sources
  returns (values ++ more)

-- `rindex(path, '/') + 1`; `none` if there is no slash.
unfoldable pub after_last_slash : List ℕ → Option (List ℕ)
after_last_slash [] = none
after_last_slash (c ∷ path) = elim (after_last_slash path) [
  | some name ↦ some name
  | none ↦ if c == b'/' then some path else none
]

abbrev pub labels_disk : List (List ℕ)
labels_disk =
    codes "_read_I_Os"
    ∷ codes "_read_merges"
    ∷ codes "_read_sectors"
    ∷ codes "_read_ticks"
    ∷ codes "_write_I_Os"
    ∷ codes "_write_merges"
    ∷ codes "_write_sectors"
    ∷ codes "_write_ticks"
    ∷ codes "_in_flight"
    ∷ codes "_io_ticks"
    ∷ codes "_time_in_queue"
    ∷ codes "_discard_I_Os"
    ∷ codes "_discard_merges"
    ∷ codes "_discard_sectors"
    ∷ codes "_discard_ticks"
    ∷ []

abbrev pub stat_path : List ℕ → List ℕ
stat_path disk_name = codes "/sys/block/" ++ (disk_name ++ codes "/stat")

-- One round of the loop of `init_disk`: the descriptor and the labels of a device. `sprintf` overflows
-- its buffer of 1024 bytes for a longer path.
unfoldable pub add_disk : (List ℕ → Option ℕ) → Option (List ℕ) → Outcome (Option ℕ × List (List ℕ))
add_disk open_file none = faults
add_disk open_file (some disk_name) =
    if ltb (length (stat_path disk_name)) 1024
    then returns (
      open_file (stat_path disk_name),
      map (λ suffix. take 1022 (disk_name ++ suffix)) labels_disk,
    )
    else faults

unfoldable pub add_disks :
    (List ℕ → Option ℕ) → List (List ℕ) → Outcome (List (Option ℕ) × List (List ℕ))
unfolding after_last_slash add_disk
add_disks open_file [] = returns ([], [])
add_disks open_file (disk_path ∷ found) = do
  (fd, labels) ← add_disk open_file (after_last_slash disk_path)
  (sources, more) ← add_disks open_file found
  returns (fd ∷ sources, labels ++ more)

-- The part of `init_disk` behind the loop.
unfoldable pub start_disk :
    Files (Option ℕ) → List ℕ → List (Option ℕ) × List (List ℕ) → Outcome (ℕ × Option Disk)
unfolding _get_disk
start_disk files disk_buffer (sources, labels) = do
  values ← _get_disk files disk_buffer sources
  returns (
    length sources * disk_values_size,
    some (record { values = values; tmp_values = values; sources = sources; labels = labels }),
  )

-- `found` is what `glob` finds. With no device the state is not made ready, and not used.
unfoldable pub init_disk :
    List (List ℕ) → (List ℕ → Option ℕ) → Files (Option ℕ) → List ℕ → Outcome (ℕ × Option Disk)
unfolding add_disks start_disk
init_disk [] open_file files disk_buffer = returns (0, none)
init_disk (disk_path ∷ found) open_file files disk_buffer = do
  added ← add_disks open_file (disk_path ∷ found)
  start_disk files disk_buffer added

-- The return value is `nb * 15`; here it is the length of the results.
unfoldable pub get_disk : Files (Option ℕ) → List ℕ → Disk → Outcome (List ℕ × Disk)
unfolding _get_disk
get_disk files disk_buffer state = do
  values ← _get_disk files disk_buffer state.sources
  returns
      (differences values state.tmp_values, record state { values = values; tmp_values = values })

-- The descriptors that are closed.
unfoldable pub clean_disk : Disk → List (Option ℕ)
clean_disk state = state.sources

unfoldable pub label_disk : Disk → List (List ℕ)
label_disk state = state.labels
